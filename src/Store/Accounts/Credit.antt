-- ===== src/Store/Accounts/Credit.antt =====
-- CreditVolume and CreditTime of backend/store/admin.go: what the operator grants an npub. An account
-- that it makes on the way stays, whatever comes after. `fresh` ids are the database's.
use fips_exit_gate.Base.{ℕ, ◌+◌, ◌*◌, Option, none, some, [], ◌∷◌, ◌++◌}
use fips_exit_gate.Store.State.{Kind, volume, time, Entitlement, AccountRow, Db}
use fips_exit_gate.Store.Whitelist.{after_recompute, with_whitelist, activate_owner_row}
use fips_exit_gate.Store.Accounts.{Result, done, with_account, create_account}

-- The transaction that both share, and the recompute behind it.
unfoldable pub credit_account : ℕ → Entitlement → AccountRow → Db → Result
unfolding after_recompute with_whitelist activate_owner_row
credit_account now e a db = done (
    after_recompute now (record (with_whitelist (activate_owner_row a.id db.whitelist) db) {
      entitlements = db.entitlements ++ record e { account_id = a.id } ∷ [];
    }))

unfoldable pub credit : ℕ → Entitlement → ℕ → Result → Result
unfolding with_account credit_account
credit now e npub (db, none) = with_account npub db (λ a. credit_account now e a db)
credit now e npub (db, some x) = (db, some x)

unfoldable pub credited : ℕ → ℕ → Kind → ℕ → ℕ → Entitlement
credited now fresh kind bytes days = record {
  id = fresh;
  account_id = 0;
  purchase_id = none;
  kind = kind;
  volume_bytes = bytes;
  volume_used = 0;
  starts_at = now;
  expires_at = now + days * 86400;
}

module _ (derive : ℕ → Option ℕ) (now fresh_account fresh_entry fresh npub : ℕ) where
  unfoldable pub credit_volume : ℕ → ℕ → Db → Result
  unfolding credit credited create_account
  credit_volume bytes days db =
      credit now (credited now fresh volume bytes days) npub
        (create_account derive now fresh_account fresh_entry npub db)

  unfoldable pub credit_time : ℕ → Db → Result
  unfolding credit credited create_account
  credit_time days db =
      credit now (credited now fresh time 0 days) npub
        (create_account derive now fresh_account fresh_entry npub db)
