-- ===== src/Gate/Mirror.antt =====
-- An agent that applies what the backend answers has the backend's set.
use fips_exit_gate.Base.{
  ℕ, ◌+◌, ◌≤◌, ◌≡◌, ◌∙◌, refl, sym, ap, Bool, ◌||◌, none, List, [], ◌∷◌, arith, inl, inr, ◌==◌,
  if◌then◌else◌, Bool-cases,
}
use fips_exit_gate.Base.Equality.{nat_eq}
use fips_exit_gate.Base.Sets.{contains}
use fips_exit_gate.Base.Assoc.{lookup, keys}
use fips_exit_gate.Agent.State.{Agent}
use fips_exit_gate.Agent.Host.{Host, IsHost}
use fips_exit_gate.Agent.Sync.{addrs_of, apply_authz}
use fips_exit_gate.Agent.Sync.Reconcile.{apply_authz-full, apply_authz-delta}
use fips_exit_gate.Agent.Loop.{Request}
use fips_exit_gate.Store.State.{Authz}
use fips_exit_gate.Store.Authz.{
  is_member, max_rev, min_rev, delta_since, DeltaResult, compacted, delta,
}
use fips_exit_gate.Store.Authz.Log.{Tracks, live_after, since-max_rev}
use fips_exit_gate.Store.Authz.Delta.{delta_since-Tracks, served-min_rev}
use fips_exit_gate.Api.{to_members, full_response, delta_response, write_authz}

contains-keys : (m : List (ℕ × ℕ)) (a : ℕ) → contains (keys m) a ≡ is_member a m
unfolding contains is_member lookup
contains-keys [] a = refl
contains-keys ((k, v) ∷ m) a = ground (arith, contains-keys m a)

addrs_of-to_members : (m : List (ℕ × ℕ)) → addrs_of (to_members m) ≡ keys m
addrs_of-to_members [] = refl
addrs_of-to_members ((k, v) ∷ m) = ap (◌∷◌ k) (addrs_of-to_members m)

Tracks-now : (s : Authz) → Tracks (λ a. is_member a s.current) (max_rev s.revisions) s
Tracks-now s a = rw (since-max_rev s.revisions) (unfold live_after in refl)

module _ {W : Type 0} (h : Host W) where
  -- The kernel set that an agent drives, read at an address.
  abbrev pub live : Agent W → ℕ → Bool
  live a x = contains (h.members a.world) x

  -- The agent can catch up with the log.
  abbrev pub Follower : Agent W → Authz → Type 0
  Follower a s = Tracks (live a) a.rt.authz_rev s

  -- The agent has caught up: the same members, and the backend's revision.
  pub record Mirrors (a : Agent W) (s : Authz) : Type 0 where
    pub members : (x : ℕ) → live a x ≡ is_member x s.current
    pub revision : a.rt.authz_rev ≡ max_rev s.revisions

  pub Mirrors-Follower : (a : Agent W) (s : Authz) → Mirrors a s → Follower a s
  Mirrors-Follower a s m x = rw (m.members x, m.revision) (Tracks-now s x)

module _ {W : Type 0} (h : Host W) (laws : IsHost h) where
  full-Mirrors :
      (force : Bool) (s : Authz) (a : Agent W) {a' : Agent W}
      → apply_authz h (full_response force s) a ≡ (a', none)
      → Mirrors h a' s
  unfolding full_response
  full-Mirrors force s a {a' = a'} e =
      let (set, rev) = apply_authz-full h laws (full_response force s) a refl e in
      record {
        members = λ x.
            set x
            ∙ ap (λ (m : List ℕ). contains m x) (addrs_of-to_members s.current)
            ∙ contains-keys s.current x;
        revision = rev;
      }

  delta-Mirrors :
      (force : Bool) (s : Authz) (a : Agent W) (d : DeltaResult) {a' : Agent W}
      → (min_rev s.revisions ≤ a.rt.authz_rev + 1 → Follower h a s)
      → delta_since a.rt.authz_rev s ≡ d
      → apply_authz h (delta_response force s d) a ≡ (a', none)
      → Mirrors h a' s
  unfolding delta_response
  delta-Mirrors force s a compacted f e p = full-Mirrors force s a p
  delta-Mirrors force s a (delta adds dels rev) f e p =
      let reached = served-min_rev a.rt.authz_rev s adds dels rev e in
      let (set, at, _) =
        delta_since-Tracks (live h a) a.rt.authz_rev s adds dels rev (f reached) e in
      let (became, cursor, _) =
        apply_authz-delta h laws (delta_response force s (delta adds dels rev)) a refl p in
      record {
        members = λ x. became x ∙ rw (addrs_of-to_members adds) (set x);
        revision = cursor ∙ at;
      }

  -- An agent that follows the log, if the log still reaches back to its cursor, and that applies the
  -- backend's answer to a request from its cursor, or to a full request, mirrors the backend: its
  -- kernel set has exactly the authorized addresses of the snapshot that was answered from, and its
  -- cursor is that snapshot's revision.
  pub apply-write_authz :
      (force : Bool) (s : Authz) (a : Agent W) (req : Request) {a' : Agent W}
      → (min_rev s.revisions ≤ a.rt.authz_rev + 1 → Follower h a s)
      → req.rev ≡ (if req.full then 0 else a.rt.authz_rev)
      → apply_authz h (write_authz force s req) a ≡ (a', none)
      → Mirrors h a' s
  unfolding write_authz
  apply-write_authz force s a req f asked p = elim (Bool-cases (req.full || req.rev == 0)) [
    | inl whole ↦ full-Mirrors force s a (rw whole at p)
    | inr part ↦
        let at : req.rev ≡ a.rt.authz_rev = ground arith in
        delta-Mirrors force s a (delta_since req.rev s) f (ap (λ c. delta_since c s) (sym at))
          (rw part at p)
  ]
