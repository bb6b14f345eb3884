-- ===== src/Store/Authz/Delta.antt =====
-- `DeltaSince`: the net delta takes any agent that the log can still serve to the current set.
use fips_exit_gate.Base.{
  ℕ, ◌+◌, ◌≤◌, ◌≡◌, ◌∙◌, refl, sym, ap, Bool, false, not, ◌&&◌, ◌||◌, Option, none, some, List, [],
  ◌∷◌, arith, inl, inr, ltb, Bool-cases,
}
use fips_exit_gate.Base.Equality.{nat_eq}
use fips_exit_gate.Base.Sets.{contains}
use fips_exit_gate.Base.Assoc.{lookup, insert, lookup-insert, IsMap, insert-IsMap, keys}
use fips_exit_gate.Store.State.{Op, add, del, Revision, Authz}
use fips_exit_gate.Store.Authz.{
  is_member, max_rev, min_rev, since, final_ops, added, deleted, delta, delta_since,
}
use fips_exit_gate.Store.Authz.Log.{is_add, live_after, Tracks, since-max_rev}

abbrev Ops : Type 0
Ops = List (ℕ × (Op × ℕ))

-- Membership after the last operation on an address, if there was one.
abbrev live_of : Option (Op × ℕ) → Bool → Bool
live_of none b = b
live_of (some (op, acct)) b = is_add op

live-final_ops :
    (rs : List Revision) (m : Ops) (b : Bool) (a : ℕ)
    → live_of (lookup a (final_ops rs m)) b ≡ live_after rs (live_of (lookup a m) b) a
unfolding final_ops live_after
live-final_ops [] m b a = refl
live-final_ops (r ∷ rs) m b a =
    live-final_ops rs (insert r.addr (r.op, r.account) m) b a
    ∙ ap (λ c. live_after rs c a) (ground (arith, lookup-insert r.addr a (r.op, r.account) m))

final_ops-IsMap : (rs : List Revision) (m : Ops) → IsMap m → IsMap (final_ops rs m)
unfolding final_ops
final_ops-IsMap [] m u = u
final_ops-IsMap (r ∷ rs) m u =
    final_ops-IsMap rs (insert r.addr (r.op, r.account) m)
      (insert-IsMap r.addr (r.op, r.account) m u)

abbrev is_added : Option (Op × ℕ) → Bool
is_added none = false
is_added (some (op, acct)) = is_add op

abbrev is_deleted : Option (Op × ℕ) → Bool
is_deleted none = false
is_deleted (some (op, acct)) = not (is_add op)

contains-added : (m : Ops) (a : ℕ) → IsMap m → contains (keys (added m)) a ≡ is_added (lookup a m)
unfolding added contains lookup
contains-added [] a u = refl
contains-added ((k, (add, acct)) ∷ m) a u = ground (arith, contains-added m a u.1)
contains-added ((k, (del, acct)) ∷ m) a u = ground (arith, contains-added m a u.1, u.0)

contains-deleted : (m : Ops) (a : ℕ) → IsMap m → contains (deleted m) a ≡ is_deleted (lookup a m)
unfolding deleted contains lookup
contains-deleted [] a u = refl
contains-deleted ((k, (add, acct)) ∷ m) a u = ground (arith, contains-deleted m a u.1, u.0)
contains-deleted ((k, (del, acct)) ∷ m) a u = ground (arith, contains-deleted m a u.1)

edit_of :
    (o : Option (Op × ℕ)) (b : Bool) → ((b || is_added o) && not (is_deleted o && b)) ≡ live_of o b
edit_of none b = ground arith
edit_of (some (add, acct)) b = ground arith
edit_of (some (del, acct)) b = ground arith

-- The log's net effect since a cursor.
abbrev net : ℕ → Authz → Ops
net cursor s = final_ops (since cursor s.revisions) []

delta_parts :
    (cursor : ℕ) (s : Authz) (adds : List (ℕ × ℕ)) (dels : List ℕ) (rev : ℕ)
    → delta_since cursor s ≡ delta adds dels rev
    → (added (net cursor s) ≡ adds) × (deleted (net cursor s) ≡ dels) × (max_rev s.revisions ≡ rev)
unfolding delta_since
delta_parts cursor s adds dels rev e =
    elim (Bool-cases (ltb 0 (min_rev s.revisions) && ltb (cursor + 1) (min_rev s.revisions))) [
      | inl y ↦ cc (rw y at e)
      | inr n ↦ let q = rw n at e in (cc q, cc q, cc q)
    ]

-- A delta that is handed out takes a live set that the log tracks from the agent's cursor to
-- exactly the current set, and its revision is one at which nothing is left to replay.
pub delta_since-Tracks :
    (live : ℕ → Bool) (cursor : ℕ) (s : Authz) (adds : List (ℕ × ℕ)) (dels : List ℕ) (rev : ℕ)
    → Tracks live cursor s
    → delta_since cursor s ≡ delta adds dels rev
    → ((a : ℕ)
        → ((live a || contains (keys adds) a) && not (contains dels a && live a))
          ≡ is_member a s.current)
      × (rev ≡ max_rev s.revisions)
      × Tracks (λ a. is_member a s.current) rev s
delta_since-Tracks live cursor s adds dels rev t e =
    let (p, q, r) = delta_parts cursor s adds dels rev e in
    let u = final_ops-IsMap (since cursor s.revisions) [] tt in
    (
      λ a.
          rw (← p, ← q, contains-added (net cursor s) a u, contains-deleted (net cursor s) a u)
            (edit_of (lookup a (net cursor s)) (live a)
              ∙ live-final_ops (since cursor s.revisions) [] (live a) a
              ∙ unfold lookup in t a),
      sym r,
      λ a. rw (← r, since-max_rev s.revisions) (unfold live_after in refl),
    )

-- A delta is handed out only where the log reaches back to the cursor.
pub served-min_rev :
    (cursor : ℕ) (s : Authz) (adds : List (ℕ × ℕ)) (dels : List ℕ) (rev : ℕ)
    → delta_since cursor s ≡ delta adds dels rev
    → min_rev s.revisions ≤ cursor + 1
unfolding delta_since
served-min_rev cursor s adds dels rev e =
    elim (Bool-cases (ltb 0 (min_rev s.revisions) && ltb (cursor + 1) (min_rev s.revisions))) [
      | inl y ↦ cc (rw y at e)
      | inr n ↦ ground arith
    ]
