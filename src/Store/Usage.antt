-- ===== src/Store/Usage.antt =====
-- backend/store/usage.go: `IngestUsage`, from a node's report to the entitlements that it draws down.
--
-- The samples of a report carry a service key, an address and bytes, as the agent sent them.
pub mod Weight
pub mod Consume
pub mod Charge
pub mod Drawn
pub mod Ingest
use fips_exit_gate.Base.{
  ℕ, zero, suc, ◌+◌, ◌-◌, ◌*◌, ◌/◌, ◌%◌, ◌^◌, Bool, true, false, not, ◌&&◌, ◌||◌, Option, none,
  some, List, [], ◌∷◌, ◌++◌, map, ltb, leb, ◌==◌, if◌then◌else◌, length, min,
}
use fips_exit_gate.Base.Equality.{nat_eq}
use fips_exit_gate.Base.Assoc.{lookup}
use fips_exit_gate.Store.State.{
  Kind, volume, time, Entitlement, ServiceRow, ReportRow, SampleRow, Revision, Authz, Db,
}
use fips_exit_gate.Store.Authz.{any, is_time, recompute}
use fips_exit_gate.Store.Whitelist.{find}

pub record SampleInput : Type 0 where
  pub service : ℕ
  pub addr : ℕ
  pub bytes : ℕ

pub record ReportInput : Type 0 where
  pub report_id : ℕ
  pub counter_epoch : ℕ
  pub window_end : ℕ
  pub samples : List SampleInput

abbrev pub max_sample_bytes : ℕ
max_sample_bytes = 1_099_511_627_776

unfoldable pub clamp : ℕ → ℕ
clamp bytes = if ltb max_sample_bytes bytes then max_sample_bytes else bytes

-- The weighted bytes, divided first; `Weight` shows that 64 bits hold every part.
unfoldable pub weigh : ℕ → ℕ → ℕ
weigh bytes rate = bytes / 1_000_000 * rate + bytes % 1_000_000 * rate / 1_000_000

-- `serviceMetaByKey`, read at a key.
unfoldable pub service_meta : ℕ → List ServiceRow → Option ServiceRow
unfolding find
service_meta key services = find (λ (s : ServiceRow). s.enabled && s.key == key) services

-- An entitlement that `consumeVolume` may draw from.
unfoldable pub draws : ℕ → ℕ → Entitlement → Bool
unfolding is_time
draws now acct e =
    e.account_id == acct
    && not (is_time e.kind)
    && leb e.starts_at now
    && leb now e.expires_at
    && ltb e.volume_used e.volume_bytes

unfoldable pub sooner : Entitlement → Option Entitlement → Entitlement
sooner e none = e
sooner e (some f) = if ltb f.expires_at e.expires_at then f else e

-- `ORDER BY expires_at ASC LIMIT 1`.
unfoldable pub earliest : ℕ → ℕ → List Entitlement → Option Entitlement
unfolding draws sooner
earliest now acct [] = none
earliest now acct (e ∷ es) =
    let rest = earliest now acct es in if draws now acct e then some (sooner e rest) else rest

-- `UPDATE entitlements SET volume_used = volume_used + $2 WHERE id = $1`.
unfoldable pub use_volume : ℕ → ℕ → List Entitlement → List Entitlement
use_volume id n [] = []
use_volume id n (e ∷ es) =
    (if e.id == id then record e { volume_used = e.volume_used + n } else e) ∷ use_volume id n es

-- The loop of `consumeVolume`: every turn ends it or uses up an entitlement, so that a turn for each
-- of them, and one more, is enough.
unfoldable pub consume_loop : ℕ → ℕ → ℕ → ℕ → List Entitlement → List Entitlement
unfolding earliest use_volume
consume_loop zero now acct weighted es = es
consume_loop (suc fuel) now acct zero es = es
consume_loop (suc fuel) now acct (suc weighted) es = elim (earliest now acct es) [
  | none ↦ es
  | some e ↦
      let consume = min (suc weighted) (e.volume_bytes - e.volume_used) in
      consume_loop fuel now acct (suc weighted - consume) (use_volume e.id consume es)
]

unfoldable pub consume_volume : ℕ → ℕ → ℕ → List Entitlement → List Entitlement
unfolding consume_loop
consume_volume now acct weighted es = consume_loop (suc (length es)) now acct weighted es

-- The account that most recently held an address, within a week.
unfoldable pub last_holder : ℕ → ℕ → List Revision → Option ℕ
last_holder now addr [] = none
last_holder now addr (r ∷ rs) =
    let later = last_holder now addr rs in
    elim later [
      | some acct ↦ some acct
      | none ↦ if r.addr == addr && ltb now (r.created_at + 604_800) then some r.account else none
    ]

-- The account that a sample is billed to.
unfoldable pub attribute : ℕ → ℕ → Authz → Option ℕ
unfolding last_holder
attribute now addr s = elim (lookup addr s.current) [
  | some acct ↦ some acct
  | none ↦ last_holder now addr s.revisions
]

unfoldable pub bill : ℕ → ℕ → Option ServiceRow → Option ℕ → List Entitlement → List Entitlement
unfolding consume_volume weigh
bill now bytes (some s) (some acct) es =
    if ltb 0 s.rate_ppm then consume_volume now acct (weigh bytes s.rate_ppm) es else es
bill now bytes none acct es = es
bill now bytes (some s) none es = es

-- One turn of the loop over the samples.
unfoldable pub ingest_sample : ℕ → ℕ → SampleInput → Db → Db
unfolding bill attribute service_meta clamp
ingest_sample now report smp db =
    let bytes = clamp smp.bytes in
    let meta = service_meta smp.service db.services in
    let acct = attribute now smp.addr db.authz in
    record db {
      samples =
          db.samples
          ++ record {
            report_id = report;
            service_id = elim meta [ none ↦ none | some s ↦ some s.id ];
            fips_addr = smp.addr;
            account_id = acct;
            bytes = bytes;
          }
            ∷ [];
      entitlements = bill now bytes meta acct db.entitlements;
    }

unfoldable pub ingest_samples : ℕ → ℕ → List SampleInput → Db → Db
unfolding ingest_sample
ingest_samples now report [] db = db
ingest_samples now report (smp ∷ smps) db =
    ingest_samples now report smps (ingest_sample now report smp db)

unfoldable pub is_duplicate : ℕ → Db → Bool
unfolding any
is_duplicate report db = any (λ (r : ReportRow). r.id == report) db.reports

-- The transaction of a report that is new.
unfoldable pub record_report : ℕ → ℕ → ReportInput → Db → Db
unfolding ingest_samples
record_report now node r db = ingest_samples now r.report_id r.samples (record db {
  reports =
      db.reports
      ++ record {
        id = r.report_id;
        node_id = node;
        counter_epoch = r.counter_epoch;
        window_end = r.window_end;
      }
        ∷ [];
})

-- The tables after `IngestUsage`, and the addresses to revoke. `later` is the time of the recompute.
unfoldable pub ingest_usage : ℕ → ℕ → ℕ → ReportInput → Db → Db × List ℕ
unfolding is_duplicate record_report
ingest_usage now later node r db =
    if is_duplicate r.report_id db
    then (db, [])
    else let db' = record_report now node r db in
      let (authz, removed, _) = recompute later db' in (record db' { authz = authz }, removed)
