-- ===== src/Store/Authz/Serves.antt =====
-- The log over time: recomputes append to it and compactions cut it, and an agent that it still
-- reaches can catch up.
use fips_exit_gate.Base.{
  ℕ, ◌+◌, ◌≤◌, ◌<◌, ◌≡◌, refl, Bool, List, [], ◌∷◌, ◌++◌, arith, if_cases, All, All-append,
  All-keep,
}
use fips_exit_gate.Base.Equality.{nat_eq}
use fips_exit_gate.Base.Assoc.{lookup}
use fips_exit_gate.Store.State.{Revision, Authz, Db}
use fips_exit_gate.Store.Authz.{
  put_member, drop_member, same_account, is_member, add_members, del_members, desired, recompute,
  compact, min_rev, max_rev,
}
use fips_exit_gate.Store.Authz.Log.{Tracks, IsLog}
use fips_exit_gate.Store.Authz.Recompute.{Follows-recompute}
use fips_exit_gate.Store.Authz.Compact.{IsDated, compact-Tracks, min_rev-kept, IsDated-keep}

-- The log is in order and dated, and describes the set to the cursor if it reaches back to it.
pub record Serves (live : ℕ → Bool) (cursor : ℕ) (s : Authz) : Type 0 where
  pub log : IsLog s
  pub dated : IsDated s.revisions
  pub past : cursor ≤ s.last_rev
  pub tracks : min_rev s.revisions ≤ cursor + 1 → Tracks live cursor s

-- No row of the log is dated after `now`.
abbrev pub IsPast : ℕ → Authz → Type 0
IsPast now s = All (λ (r : Revision). r.created_at ≤ now) s.revisions

-- What a recompute at `now` does to the log of `s`.
record IsGrown (now : ℕ) (s t : Authz) : Type 0 where
  log : IsLog t
  dated : IsDated t.revisions
  settled : IsPast now t
  later : s.last_rev ≤ t.last_rev
  oldest : min_rev s.revisions ≤ min_rev t.revisions

min_rev-append :
    (n : ℕ) (rs : List Revision) (r : Revision)
    → n < r.rev
    → All (λ (q : Revision). q.rev ≤ n) rs
    → min_rev rs ≤ min_rev (rs ++ r ∷ [])
unfolding min_rev
min_rev-append n [] r h u = omega arith
min_rev-append n (q ∷ []) r h u = ground arith
min_rev-append n (q ∷ p ∷ rs) r h (g, u) = ground (arith, min_rev-append n (p ∷ rs) r h u)

IsDated-append :
    (n now : ℕ) (rs : List Revision) (r : Revision)
    → n < r.rev
    → r.created_at ≡ now
    → All (λ (q : Revision). q.rev ≤ n) rs
    → All (λ (q : Revision). q.created_at ≤ now) rs
    → IsDated rs
    → IsDated (rs ++ r ∷ [])
IsDated-append n now [] r h e u v d = (tt, tt)
IsDated-append n now (q ∷ rs) r h e (g, u) (b, v) (later, d) = (
  All-append _ rs (r ∷ []) later ((omega (arith, h, g), omega (arith, e, b)), tt),
  IsDated-append n now rs r h e u v d,
)

-- One row more, with the next number and today's date.
grow :
    (now : ℕ) (s t u : Authz) (r : Revision)
    → u.revisions ≡ t.revisions ++ r ∷ []
    → u.last_rev ≡ t.last_rev + 1
    → r.rev ≡ t.last_rev + 1
    → r.created_at ≡ now
    → IsGrown now s t
    → IsGrown now s u
grow now s t u r rows last number date g =
    let n = t.last_rev in
    let above : n < r.rev = omega (arith, number) in
    record {
      log =
          rw (rows, last)
            (All-append _ t.revisions (r ∷ []) (weaken t.revisions g.log)
              (omega (arith, number), tt));
      dated = rw rows (IsDated-append n now t.revisions r above date g.log g.settled g.dated);
      settled = rw rows (All-append _ t.revisions (r ∷ []) g.settled (omega (arith, date), tt));
      later = omega (arith, g.later, last);
      oldest = rw rows (omega (arith, g.oldest, min_rev-append n t.revisions r above g.log));
    }
  where
    weaken :
        (rs : List Revision)
        → All (λ (q : Revision). q.rev ≤ t.last_rev) rs
        → All (λ (q : Revision). q.rev ≤ t.last_rev + 1) rs
    weaken [] u = tt
    weaken (q ∷ rs) (h, u) = (omega (arith, h), weaken rs u)

module _ (now : ℕ) (s : Authz) where
  IsGrown-put_member :
      (addr acct : ℕ) (t : Authz) → IsGrown now s t → IsGrown now s (put_member now addr acct t)
  unfolding put_member
  IsGrown-put_member addr acct t g = grow now s t _ _ refl refl refl refl g

  IsGrown-drop_member :
      (addr acct : ℕ) (t : Authz) → IsGrown now s t → IsGrown now s (drop_member now addr acct t)
  unfolding drop_member
  IsGrown-drop_member addr acct t g = grow now s t _ _ refl refl refl refl g

  add_members-IsGrown :
      (current wanted : List (ℕ × ℕ)) (t : Authz)
      → IsGrown now s t
      → IsGrown now s (add_members now current wanted t)
  unfolding add_members
  add_members-IsGrown current [] t g = g
  add_members-IsGrown current ((addr, acct) ∷ wanted) t g = add_members-IsGrown current wanted _ (
      if_cases (IsGrown now s) (same_account (lookup addr current) acct) (λ _. g)
        (λ _. IsGrown-put_member addr acct t g))

  del_members-IsGrown :
      (wanted current : List (ℕ × ℕ)) (t : Authz)
      → IsGrown now s t
      → IsGrown now s (del_members now wanted current t).0
  unfolding del_members
  del_members-IsGrown wanted [] t g = g
  del_members-IsGrown wanted ((addr, acct) ∷ current) t g = del_members-IsGrown wanted current _ (
      if_cases (IsGrown now s) (is_member addr wanted) (λ _. g)
        (λ _. IsGrown-drop_member addr acct t g))

recompute-IsGrown :
    (now : ℕ) (db : Db)
    → IsLog db.authz
    → IsDated db.authz.revisions
    → IsPast now db.authz
    → IsGrown now db.authz (recompute now db).0
unfolding recompute
recompute-IsGrown now db log dated settled =
    let same : IsGrown now db.authz db.authz = record {
      log = log;
      dated = dated;
      settled = settled;
      later = omega arith;
      oldest = omega arith;
    } in
    del_members-IsGrown now db.authz (desired now db) db.authz.current _
      (add_members-IsGrown now db.authz db.authz.current (desired now db) db.authz same)

module _ (live : ℕ → Bool) (cursor : ℕ) where
  -- Recomputes whose clock is not behind the log, and compactions of any age, keep the log in order.
  pub Serves-recompute :
      (now : ℕ) (db : Db)
      → IsPast now db.authz
      → Serves live cursor db.authz
      → Serves live cursor (recompute now db).0
  Serves-recompute now db settled v =
      let g = recompute-IsGrown now db v.log v.dated settled in
      record {
        log = g.log;
        dated = g.dated;
        past = omega (arith, v.past, g.later);
        tracks = λ reached.
            let before = v.tracks (omega (arith, g.oldest, reached)) in
            (Follows-recompute live cursor now db
              (record { log = v.log; past = v.past; tracks = before })).tracks;
      }

  pub Serves-compact :
      (cutoff : ℕ) (s : Authz) → Serves live cursor s → Serves live cursor (compact cutoff s)
  Serves-compact cutoff s v =
      let back = min_rev-kept cutoff (max_rev s.revisions) s.revisions (omega arith) v.dated in
      record {
        log = unfold compact in All-keep _ _ s.revisions v.log;
        dated = unfold compact in IsDated-keep _ s.revisions v.dated;
        past = unfold compact in v.past;
        tracks = λ reached.
            compact-Tracks live cutoff cursor s v.dated reached
              (v.tracks (unfold compact in omega (arith, back, reached)));
      }
