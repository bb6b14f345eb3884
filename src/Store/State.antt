-- ===== src/Store/State.antt =====
-- The tables of backend/store/migrations/ that the modelled operations read and write.
--
-- Ids, npubs, addresses and invoice ids are only compared, and are numbers; instants are numbers of
-- seconds; a row's place in its list is its order of creation. `now` is `now()` of a transaction.
use fips_exit_gate.Base.{ℕ, Bool, Option, List, []}

pub record AccountRow : Type 0 where
  pub id : ℕ
  pub npub : ℕ
  pub fips_addr : ℕ
  pub active : Bool  -- status = 'active'

pub data Role : Type 0 where
  owner guest : Role

pub record EntryRow : Type 0 where
  pub id : ℕ
  pub account_id : ℕ
  pub npub : ℕ
  pub fips_addr : ℕ
  pub role : Role
  pub enabled : Bool
  pub pending : Bool

pub data Kind : Type 0 where
  volume time : Kind

-- `volume_bytes` is 0 where the column is NULL (the time kind), here and in a package.
pub record Entitlement : Type 0 where
  pub id : ℕ
  pub account_id : ℕ
  pub purchase_id : Option ℕ
  pub kind : Kind
  pub volume_bytes : ℕ
  pub volume_used : ℕ
  pub starts_at : ℕ
  pub expires_at : ℕ

pub data Op : Type 0 where
  add del : Op

pub record Revision : Type 0 where
  pub rev : ℕ
  pub op : Op
  pub addr : ℕ
  pub account : ℕ
  pub created_at : ℕ

-- `authz_current`, `authz_revisions` in the order of `rev`, and the sequence behind `rev`.
pub record Authz : Type 0 where
  pub current : List (ℕ × ℕ)
  pub revisions : List Revision
  pub last_rev : ℕ

pub record ServiceRow : Type 0 where
  pub id : ℕ
  pub key : ℕ
  pub rate_ppm : ℕ
  pub enabled : Bool

pub record ReportRow : Type 0 where
  pub id : ℕ
  pub node_id : ℕ
  pub counter_epoch : ℕ
  pub window_end : ℕ

pub record SampleRow : Type 0 where
  pub report_id : ℕ
  pub service_id : Option ℕ
  pub fips_addr : ℕ
  pub account_id : Option ℕ
  pub bytes : ℕ

-- `validity_s` is `validity_days` in seconds.
pub record PackageRow : Type 0 where
  pub id : ℕ
  pub kind : Kind
  pub volume_bytes : ℕ
  pub validity_s : ℕ

pub data Status : Type 0 where
  pending processing settled expired invalid : Status

pub record PurchaseRow : Type 0 where
  pub id : ℕ
  pub account_id : ℕ
  pub package_id : ℕ
  pub invoice_id : Option ℕ
  pub status : Status
  pub settled_at : Option ℕ

pub record Db : Type 0 where
  pub accounts : List AccountRow
  pub whitelist : List EntryRow
  pub entitlements : List Entitlement
  pub services : List ServiceRow
  pub reports : List ReportRow
  pub samples : List SampleRow
  pub packages : List PackageRow
  pub purchases : List PurchaseRow
  pub authz : Authz

abbrev pub new_authz : Authz
new_authz = record { current = []; revisions = []; last_rev = 0 }
