-- ===== src/Agent/Heartbeat.antt =====
-- agent/agent.go, `runHeartbeat` and `applyConfig`: what a heartbeat tells the backend of the kernel
-- set, and what the agent does with the answer. `digest` stands for the hash of pkg/authzhash; the
-- WireGuard fields are left out.
use fips_exit_gate.Base.{ℕ, Bool, Option, none, some, List, [], ◌∷◌, ltb, if◌then◌else◌, length}
use fips_exit_gate.Base.Equality.{nat_eq}
use fips_exit_gate.Base.Assoc.{insert}
use fips_exit_gate.Agent.State.{Addr, ServiceInfo, AgentConfig, Agent}
use fips_exit_gate.Agent.Host.{Host}
use fips_exit_gate.Agent.Loop.{request_resync}

-- `none` is the size -1 and the empty hash: the set could not be listed.
pub record HeartbeatRequest : Type 0 where
  pub authz_rev : ℕ
  pub set_size : Option ℕ
  pub set_hash : Option ℕ

pub record HeartbeatResponse : Type 0 where
  pub config : AgentConfig
  pub resync : Bool

unfoldable pub request_of : (List Addr → ℕ) → ℕ → Option (List Addr) → HeartbeatRequest
request_of digest rev none = record { authz_rev = rev; set_size = none; set_hash = none }
request_of digest rev (some live) = record {
  authz_rev = rev;
  set_size = some (length live);
  set_hash = some (digest live);
}

-- The map from port to service key.
unfoldable pub services_of : List ServiceInfo → List (ℕ × ℕ) → List (ℕ × ℕ)
services_of [] m = m
services_of (s ∷ ss) m = services_of ss (insert s.port s.key m)

module _ {W : Type 0} where
  -- A value of 0, or an empty list, changes nothing.
  unfoldable pub apply_config : AgentConfig → Agent W → Agent W
  unfolding services_of
  apply_config cfg a = record a {
    cfg = record a.cfg {
      usage_interval_s =
          if ltb 0 cfg.usage_interval_s then cfg.usage_interval_s else a.cfg.usage_interval_s;
      grace_minutes = if ltb 0 cfg.grace_minutes then cfg.grace_minutes else a.cfg.grace_minutes;
    };
    services = if ltb 0 (length cfg.services) then services_of cfg.services [] else a.services;
  }

  -- `none` is a call that failed.
  unfoldable pub handle_heartbeat : Option HeartbeatResponse → Agent W → Agent W
  unfolding apply_config request_resync
  handle_heartbeat none a = a
  handle_heartbeat (some resp) a =
      let a' = apply_config resp.config a in if resp.resync then request_resync a' else a'

-- One turn of the loop.
unfoldable pub run_heartbeat :
    {W : Type 0}
    → Host W
    → (List Addr → ℕ)
    → (HeartbeatRequest → Option HeartbeatResponse)
    → Agent W
    → Agent W
unfolding request_of handle_heartbeat
run_heartbeat h digest backend a =
    handle_heartbeat (backend (request_of digest a.rt.authz_rev (h.list_authorized a.world))) a
