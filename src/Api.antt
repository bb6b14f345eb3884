-- ===== src/Api.antt =====
-- backend/api.go, the agent's side: the long poll (`authz`, `writeAuthz`) and the drift check of
-- `heartbeat`.
use fips_exit_gate.Base.{
  ℕ, Bool, true, false, not, ◌||◌, ◌&&◌, none, some, List, [], ◌∷◌, ◌==◌, if◌then◌else◌, length,
}
use fips_exit_gate.Base.Assoc.{keys}
use fips_exit_gate.Agent.Heartbeat.{HeartbeatRequest, HeartbeatResponse}
use fips_exit_gate.Agent.State.{AgentConfig, AuthzMember, AuthzResponse}
use fips_exit_gate.Agent.Loop.{Request, Reply, unchanged, answer}
use fips_exit_gate.Store.State.{Authz}
use fips_exit_gate.Store.Authz.{max_rev, full_set, DeltaResult, compacted, delta, delta_since}

abbrev pub to_members : List (ℕ × ℕ) → List AuthzMember
to_members [] = []
to_members ((a, acct) ∷ m) = record { addr = a; account = acct } ∷ to_members m

unfoldable pub full_response : Bool → Authz → AuthzResponse
unfolding full_set
full_response force s =
    let (members, rev) = full_set s in
    record {
      rev = rev;
      full = true;
      addresses = to_members members;
      add = [];
      del = [];
      force = force;
    }

-- A cursor that the compacted log no longer reaches gets the full set.
unfoldable pub delta_response : Bool → Authz → DeltaResult → AuthzResponse
unfolding full_response
delta_response force s compacted = full_response force s
delta_response force s (delta add del rev) = record {
  rev = rev;
  full = false;
  addresses = [];
  add = to_members add;
  del = del;
  force = false;
}

-- `force` is the backend's own `allowMassRevoke`.
unfoldable pub write_authz : Bool → Authz → Request → AuthzResponse
unfolding delta_response
write_authz force s req =
    if req.full || req.rev == 0
    then full_response force s
    else delta_response force s (delta_since req.rev s)

-- The loop of `authz`. Each round of the wait reads the revision in one snapshot and, if it answers,
-- the body in a later one; the wait ends with the list.
unfoldable pub long_poll : Bool → List (Authz × Authz) → Request → Reply
unfolding write_authz
long_poll force [] req = unchanged
long_poll force ((checked, read) ∷ later) req =
    let rest = long_poll force later req in
    if req.full || not (req.rev == max_rev checked.revisions)
    then answer (write_authz force read req)
    else rest

-- `AuthzStatus`: the size of the set, its hash and the revision, in one snapshot. The code
-- memoizes them by revision, at which the set does not change.
unfoldable pub authz_status : (List ℕ → ℕ) → Authz → ℕ × ℕ × ℕ
authz_status digest s = (length s.current, digest (keys s.current), max_rev s.revisions)

-- The comparison of `heartbeat`: only at an equal revision, by the hash if there is one.
unfoldable pub is_drift : HeartbeatRequest → ℕ × ℕ × ℕ → Bool
is_drift req (count, hash, rev) = req.authz_rev == rev && elim req.set_hash [
  | some own ↦ not (own == hash)
  | none ↦ elim req.set_size [ some n ↦ not (n == count) | none ↦ false ]
]

unfoldable pub heartbeat : (List ℕ → ℕ) → AgentConfig → Authz → HeartbeatRequest → HeartbeatResponse
unfolding authz_status is_drift
heartbeat digest cfg s req = record { config = cfg; resync = is_drift req (authz_status digest s) }
