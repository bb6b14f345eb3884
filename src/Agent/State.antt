-- ===== src/Agent/State.antt =====
-- agent/types.go, agent/state.go and the struct `Agent` of agent/agent.go: the wire types, the
-- persisted runtime and the agent's fields.
--
-- Identifiers that the code only compares (addresses, accounts, service keys, report ids, epochs)
-- are numbers. An instant is a number of nanoseconds, and 0 is Go's zero time. Revisions, ports and
-- byte counters are non-negative in the code too.
use fips_exit_gate.Base.{ℕ, ◌≡◌, ◌↔◌, Bool, true, ◌&&◌, List, [], arith, ◌==◌}
use fips_exit_gate.Base.Equality.{Eq}

abbrev pub Addr : Type 0
Addr = ℕ

abbrev pub Account : Type 0
Account = ℕ

pub record AuthzMember : Type 0 where
  pub addr : Addr
  pub account : Account

pub record AuthzResponse : Type 0 where
  pub rev : ℕ
  pub full : Bool
  pub addresses : List AuthzMember
  pub add : List AuthzMember
  pub del : List Addr
  pub force : Bool

-- A client address on a service port: the element of the kernel's accounting set, and (as the text
-- "addr|port") the key of a stored baseline.
pub record AcctKey : Type 0 where
  pub addr : Addr
  pub port : ℕ

unfoldable pub key_beq : AcctKey → AcctKey → Bool
key_beq j k = j.addr == k.addr && j.port == k.port

pub key_beq_iff : (j k : AcctKey) → (key_beq j k ≡ true) ↔ (j ≡ k)
unfolding key_beq
key_beq_iff j k = (λ h. ground arith, λ h. ground arith)

instance abbrev pub key_eq : Eq AcctKey
key_eq = record { beq = key_beq; beq_iff = key_beq_iff }

-- `services[port]`, or the label "unknown:<port>".
pub data ServiceLabel : Type 0 where
  known : ℕ → ServiceLabel
  unknown : ℕ → ServiceLabel

pub record UsageSample : Type 0 where
  pub service : ServiceLabel
  pub addr : Addr
  pub bytes : ℕ

pub record UsageReport : Type 0 where
  pub report_id : ℕ
  pub counter_epoch : ℕ
  pub window_end : ℕ
  pub samples : List UsageSample

pub record UsageAck : Type 0 where
  pub ack : ℕ
  pub revoke : List Addr

pub record ServiceInfo : Type 0 where
  pub key : ℕ
  pub port : ℕ

pub record AgentConfig : Type 0 where
  pub usage_interval_s : ℕ
  pub grace_minutes : ℕ
  pub services : List ServiceInfo

-- What agent/state.go persists, less the identity.
pub record Runtime : Type 0 where
  pub authz_rev : ℕ
  pub counter_epoch : ℕ
  pub baselines : List (AcctKey × ℕ)
  pub buffered_usage : List UsageReport
  pub last_authz_ok : ℕ
  pub prime_baselines : Bool

abbrev pub clean_runtime : Bool → Runtime
clean_runtime primed = record {
  authz_rev = 0;
  counter_epoch = 0;
  baselines = [];
  buffered_usage = [];
  last_authz_ok = 0;
  prime_baselines = primed;
}

-- `world` is what the agent drives: the kernel and the runtime file (see Host).
pub record Agent (W : Type 0) : Type 0 where
  pub world : W
  pub rt : Runtime
  pub cfg : AgentConfig
  pub services : List (ℕ × ℕ)
  pub last_authz_ok : ℕ
  pub started_at : ℕ
  pub force_resync : Bool
  pub full_sync_every : ℕ
  pub mass_revoke_min : ℕ
  pub allow_mass_revoke : Bool
  pub fail_closed_after_grace : Bool
  pub buffer_cap : ℕ
