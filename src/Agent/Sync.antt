-- ===== src/Agent/Sync.antt =====
-- agent/agent.go, the authz sync: `applyAuthz` with its two modes and its two guards, and
-- `diffAuthorized` of agent/usage.go.
pub mod Outcomes
pub mod Reconcile
pub mod Guard
pub mod Progress
use fips_exit_gate.Base.{
  ℕ, zero, ◌+◌, ◌*◌, ◌≡◌, Bool, true, false, not, ◌&&◌, ◌||◌, Option, none, some, List, [], ◌∷◌,
  map, arith, ltb, if◌then◌else◌, length, keep,
}
use fips_exit_gate.Base.Sets.{contains, without, to_set}
use fips_exit_gate.Agent.State.{Addr, AuthzMember, AuthzResponse, Runtime, Agent}
use fips_exit_gate.Agent.Host.{Host, with_runtime}

pub data SyncError : Type 0 where
  mass_revoke : ℕ → ℕ → SyncError
  rev_regression : ℕ → ℕ → SyncError
  host_failed : SyncError

abbrev pub addrs_of : List AuthzMember → List Addr
addrs_of ms = map (λ (m : AuthzMember). m.addr) ms

-- The adds and the dels that turn the first set into the second.
unfoldable pub diff_authorized : List Addr → List Addr → List Addr × List Addr
diff_authorized current desired = (without current desired, without desired current)

module _ {W : Type 0} where
  -- More than `mass_revoke_min` deletions, and more than half of the live set.
  unfoldable pub is_mass_revoke : Agent W → ℕ → ℕ → Bool
  is_mass_revoke a del current = ltb a.mass_revoke_min del && ltb current (del * 2)

  -- The guard on a full response: neither the backend nor the operator lifts it.
  unfoldable pub refuses : AuthzResponse → Agent W → List Addr → List Addr → Bool
  unfolding is_mass_revoke
  refuses resp a del current =
      not resp.force && not a.allow_mass_revoke && is_mass_revoke a (length del) (length current)

  saved : Agent W × Bool → Agent W × Option SyncError
  saved (a, true) = (a, none)
  saved (a, false) = (a, some host_failed)

module _ {W : Type 0} (h : Host W) where
  only_live : List Addr → Option (List Addr) → Option (List Addr)
  only_live del none = none
  only_live del (some current) = some (keep (contains current) del)

  -- The members of `del` that the live set has; no listing when there is nothing to delete.
  unfoldable pub present_only : List Addr → W → Option (List Addr)
  unfolding only_live
  present_only [] w = some []
  present_only (d ∷ del) w = only_live (d ∷ del) (h.list_authorized w)

  advance : ℕ → Agent W → Option W → Agent W × Option SyncError
  unfolding with_runtime saved
  advance rev a none = (a, some host_failed)
  advance rev a (some w) =
      saved (with_runtime h (λ r. record r { authz_rev = rev }) (record a { world = w }))

  -- The end that the two modes share: one atomic batch, then the cursor.
  unfoldable pub commit : List Addr → List Addr → ℕ → Agent W → Agent W × Option SyncError
  unfolding advance
  commit add del rev a = advance rev a (h.apply_authorized add del a.world)

  -- The full mode, once the live set is listed.
  unfoldable pub apply_full :
      AuthzResponse → Agent W → Option (List Addr) → Agent W × Option SyncError
  unfolding commit refuses diff_authorized
  apply_full resp a none = (a, some host_failed)
  apply_full resp a (some current) =
      let (add, del) = diff_authorized current (to_set (addrs_of resp.addresses)) in
      if refuses resp a del current
      then (a, some (mass_revoke (length del) (length current)))
      else commit add del resp.rev a

  -- The delta mode, once the deletions are filtered.
  unfoldable pub apply_delta :
      AuthzResponse → Agent W → Option (List Addr) → Agent W × Option SyncError
  unfolding commit
  apply_delta resp a none = (a, some host_failed)
  apply_delta resp a (some del) = commit (addrs_of resp.add) del resp.rev a

  unfoldable pub apply_authz : AuthzResponse → Agent W → Agent W × Option SyncError
  unfolding apply_full apply_delta present_only
  apply_authz resp a =
      if resp.full
      then apply_full resp a (h.list_authorized a.world)
      else if ltb resp.rev a.rt.authz_rev
      then (a, some (rev_regression resp.rev a.rt.authz_rev))
      else apply_delta resp a (present_only resp.del a.world)
