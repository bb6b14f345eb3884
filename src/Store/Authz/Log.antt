-- ===== src/Store/Authz/Log.antt =====
-- Replaying the revision log, and what an append does to it.
use fips_exit_gate.Base.{
  ℕ, ◌+◌, ◌≤◌, ◌<◌, ◌≡◌, refl, ap, Bool, true, false, List, [], ◌∷◌, ◌++◌, arith, inl, inr, ltb,
  ◌==◌, if◌then◌else◌, All, Bool-cases, lt→ltb,
}
use fips_exit_gate.Base.Equality.{nat_eq}
use fips_exit_gate.Base.Assoc.{insert, erase, lookup-insert, lookup-erase}
use fips_exit_gate.Store.State.{Op, add, del, Revision, Authz}
use fips_exit_gate.Store.Authz.{put_member, drop_member, is_member, max_rev, since}

abbrev pub is_add : Op → Bool
is_add add = true
is_add del = false

-- Whether an address is a member after the revisions, given whether it was one before.
unfoldable pub live_after : List Revision → Bool → ℕ → Bool
live_after [] b a = b
live_after (r ∷ rs) b a = live_after rs (if r.addr == a then is_add r.op else b) a

live_after-append :
    (rs : List Revision) (r : Revision) (b : Bool) (a : ℕ)
    → live_after (rs ++ r ∷ []) b a ≡ (if r.addr == a then is_add r.op else live_after rs b a)
unfolding live_after
live_after-append [] r b a = refl
live_after-append (q ∷ rs) r b a = live_after-append rs r (if q.addr == a then is_add q.op else b) a

since-append :
    (cursor : ℕ) (rs : List Revision) (r : Revision)
    → cursor < r.rev
    → since cursor (rs ++ r ∷ []) ≡ since cursor rs ++ r ∷ []
unfolding since
since-append cursor [] r h = rw (lt→ltb _ _ h)
since-append cursor (q ∷ rs) r h = elim (Bool-cases (ltb cursor q.rev)) [
  | inl y ↦ rw y (ap (◌∷◌ q) (since-append cursor rs r h))
  | inr n ↦ rw n (since-append cursor rs r h)
]

-- An agent whose live set is `live` and whose cursor is `cursor`: the revisions that it has not
-- seen yet take its set to the backend's.
abbrev pub Tracks : (ℕ → Bool) → ℕ → Authz → Type 0
Tracks live cursor s =
    (a : ℕ) → live_after (since cursor s.revisions) (live a) a ≡ is_member a s.current

-- Every number in the log is one that the sequence has given out.
abbrev pub IsLog : Authz → Type 0
IsLog s = All (λ (r : Revision). r.rev ≤ s.last_rev) s.revisions

All-append_rev :
    (n m : ℕ) (rs : List Revision) (r : Revision)
    → n ≤ m
    → r.rev ≤ m
    → All (λ (q : Revision). q.rev ≤ n) rs
    → All (λ (q : Revision). q.rev ≤ m) (rs ++ r ∷ [])
All-append_rev n m [] r h k u = (k, tt)
All-append_rev n m (q ∷ rs) r h k u = (omega arith, All-append_rev n m rs r h k u.1)

-- A cursor that has caught up with the log has nothing to replay.
pub since_nil :
    (n cursor : ℕ) (rs : List Revision)
    → n ≤ cursor
    → All (λ (q : Revision). q.rev ≤ n) rs
    → since cursor rs ≡ []
unfolding since
since_nil n cursor [] h u = refl
since_nil n cursor (q ∷ rs) h u = ground (arith, since_nil n cursor rs h u.1)

max_rev-below : (n : ℕ) (rs : List Revision) → max_rev rs ≤ n → All (λ (q : Revision). q.rev ≤ n) rs
unfolding max_rev
max_rev-below n [] h = tt
max_rev-below n (q ∷ rs) h = (ground arith, max_rev-below n rs (ground arith))

-- The greatest number in the log is such a cursor.
pub since-max_rev : (rs : List Revision) → since (max_rev rs) rs ≡ []
since-max_rev rs =
    since_nil (max_rev rs) (max_rev rs) rs (omega arith)
      (max_rev-below (max_rev rs) rs (omega arith))

live_since-append :
    (cursor : ℕ) (rs : List Revision) (r : Revision) (b : Bool) (a : ℕ)
    → cursor < r.rev
    → live_after (since cursor (rs ++ r ∷ [])) b a
      ≡ (if r.addr == a then is_add r.op else live_after (since cursor rs) b a)
live_since-append cursor rs r b a h =
    rw (since-append cursor rs r h) (live_after-append (since cursor rs) r b a)

pub is_member-insert :
    (k j v : ℕ) (m : List (ℕ × ℕ))
    → is_member j (insert k v m) ≡ (if k == j then true else is_member j m)
unfolding is_member
is_member-insert k j v m = ground (arith, lookup-insert k j v m)

pub is_member-erase :
    (k j : ℕ) (m : List (ℕ × ℕ))
    → is_member j (erase k m) ≡ (if k == j then false else is_member j m)
unfolding is_member
is_member-erase k j m = ground (arith, lookup-erase k j m)

module _ (now addr acct : ℕ) (s : Authz) where
  abbrev next : Op → Revision
  next op = record { rev = s.last_rev + 1; op = op; addr = addr; account = acct; created_at = now }

  pub IsLog-put_member : IsLog s → IsLog (put_member now addr acct s)
  unfolding put_member
  IsLog-put_member u =
      All-append_rev s.last_rev (s.last_rev + 1) s.revisions (next add) (omega arith) (omega arith)
        u

  pub IsLog-drop_member : IsLog s → IsLog (drop_member now addr acct s)
  unfolding drop_member
  IsLog-drop_member u =
      All-append_rev s.last_rev (s.last_rev + 1) s.revisions (next del) (omega arith) (omega arith)
        u

  pub Tracks-put_member :
      (live : ℕ → Bool) (cursor : ℕ)
      → cursor ≤ s.last_rev
      → Tracks live cursor s
      → Tracks live cursor (put_member now addr acct s)
  unfolding put_member
  Tracks-put_member live cursor past t a = ground (
    arith,
    live_since-append cursor s.revisions (next add) (live a) a,
    is_member-insert addr a acct s.current,
    t a,
  )

  pub Tracks-drop_member :
      (live : ℕ → Bool) (cursor : ℕ)
      → cursor ≤ s.last_rev
      → Tracks live cursor s
      → Tracks live cursor (drop_member now addr acct s)
  unfolding drop_member
  Tracks-drop_member live cursor past t a = ground (
    arith,
    live_since-append cursor s.revisions (next del) (live a) a,
    is_member-erase addr a s.current,
    t a,
  )

pub max_rev-le :
    (n : ℕ) (rs : List Revision) → All (λ (q : Revision). q.rev ≤ n) rs → max_rev rs ≤ n
unfolding max_rev
max_rev-le n [] u = omega arith
max_rev-le n (q ∷ rs) u = ground (arith, max_rev-le n rs u.1)
