-- ===== src/Agent/Sync/Outcomes.antt =====
-- How an `applyAuthz` can end: inversion lemmas for its two modes and for the batch they share.
use fips_exit_gate.Base.{
  ℕ, ◌≡◌, refl, sym, ap, ◌∙◌, inl, inr, Bool, true, false, not, ◌&&◌, ◌||◌, Option, none, some,
  List, [], ◌∷◌, Bool-cases, Option-cases, some_eq,
}
use fips_exit_gate.Base.Sets.{contains, contains-keep, without, to_set}
use fips_exit_gate.Agent.State.{Addr, AuthzResponse, Runtime, Agent}
use fips_exit_gate.Agent.Host.{Host, IsHost, with_runtime, rt-with_runtime, members-with_runtime}
use fips_exit_gate.Agent.Sync.{
  SyncError, addrs_of, refuses, present_only, saved, advance, commit, apply_full, apply_delta,
}

module _ {W : Type 0} where
  saved_ok : (p : Agent W × Bool) {a' : Agent W} → saved p ≡ (a', none) → p.0 ≡ a'
  unfolding saved
  saved_ok (a, true) e = ap (λ (q : Agent W × Option SyncError). q.0) e
  saved_ok (a, false) e = cc

module _ {W : Type 0} (h : Host W) (laws : IsHost h) where
  -- After a batch that went through: the world that nft left, and the cursor.
  advance_ok :
      (rev : ℕ) (a : Agent W) (o : Option W) {a' : Agent W}
      → advance h rev a o ≡ (a', none)
      → (w : W) × (o ≡ some w) × (h.members a'.world ≡ h.members w) × (a'.rt.authz_rev ≡ rev)
  unfolding advance
  advance_ok rev a none e = cc
  advance_ok rev a (some w) e =
      let f = λ (r : Runtime). record r { authz_rev = rev } in
      let b : Agent W = record a { world = w } in
      let same = saved_ok (with_runtime h f b) e in
      (
        w,
        refl,
        rw (← same) (members-with_runtime h laws f b),
        rw (← same) (ap (λ (r : Runtime). r.authz_rev) (rt-with_runtime h f b)),
      )

  -- A batch that went through leaves the live set with the adds and without the dels.
  pub commit_ok :
      (add del : List Addr) (rev : ℕ) (a : Agent W) {a' : Agent W}
      → commit h add del rev a ≡ (a', none)
      → ((x : Addr)
          → contains (h.members a'.world) x
            ≡ ((contains (h.members a.world) x || contains add x) && not (contains del x)))
        × (a'.rt.authz_rev ≡ rev)
  unfolding commit
  commit_ok add del rev a e =
      let (w, p, m, r) = advance_ok rev a (h.apply_authorized add del a.world) e in
      (λ x. rw m (laws.apply_members add del a.world w p x), r)

-- The members of a full response.
abbrev pub desired : AuthzResponse → List Addr
desired resp = to_set (addrs_of resp.addresses)

module _ {W : Type 0} (h : Host W) where
  -- A full response that was applied: its listing, its batch, and the guard that let it pass.
  pub apply_full_ok :
      (resp : AuthzResponse) (a : Agent W) (o : Option (List Addr)) {a' : Agent W}
      → apply_full h resp a o ≡ (a', none)
      → (current : List Addr) × (o ≡ some current)
        × (commit h (without current (desired resp)) (without (desired resp) current) resp.rev a
            ≡ (a', none))
        × (refuses resp a (without (desired resp) current) current ≡ false)
  unfolding apply_full
  apply_full_ok resp a none e = cc
  apply_full_ok resp a (some current) e =
      elim (Bool-cases (refuses resp a (without (desired resp) current) current)) [
        | inl y ↦ cc (rw y at e)
        | inr n ↦ (current, refl, rw n at e, n)
      ]

  -- A delta that was applied: the filtered deletions, and its batch.
  pub apply_delta_ok :
      (resp : AuthzResponse) (a : Agent W) (o : Option (List Addr)) {a' : Agent W}
      → apply_delta h resp a o ≡ (a', none)
      → (del : List Addr) × (o ≡ some del)
        × (commit h (addrs_of resp.add) del resp.rev a ≡ (a', none))
  unfolding apply_delta
  apply_delta_ok resp a none e = cc
  apply_delta_ok resp a (some del) e = (del, refl, e)

module _ {W : Type 0} (h : Host W) (laws : IsHost h) where
  -- `presentOnly` keeps the deletions that the live set has.
  pub present_only_ok :
      (del : List Addr) (w : W) {l : List Addr}
      → present_only h del w ≡ some l
      → (x : Addr) → contains l x ≡ (contains del x && contains (h.members w) x)
  unfolding present_only contains
  present_only_ok [] w e x = ap (λ (m : List Addr). contains m x) (sym (some_eq e))
  present_only_ok (d ∷ del) w e x = elim (Option-cases (h.list_authorized w)) [
    | inl n ↦ cc (rw n at e)
    | inr (current, p) ↦
        let q = some_eq (rw p at e) in
        ap (λ (m : List Addr). contains m x) (sym q)
        ∙ contains-keep (contains current) (d ∷ del) x
        ∙ ap (λ b. contains (d ∷ del) x && b) (laws.list_members w current p x)
  ]
