-- ===== src/Store/Purchases.antt =====
-- backend/store/payments.go and backend/store/packages.go: a purchase from its invoice to its
-- entitlement, and the webhooks that move it. Results and ids are as in Accounts.
-- The recompute behind a transaction is one of its own in the code; here it runs at the same `now`.
-- The unique index on invoice ids is left out, so that more tables are allowed than the database has.
pub mod Rows
pub mod Settled
pub mod History
use fips_exit_gate.Base.{
  ℕ, ◌+◌, Bool, true, false, not, ◌&&◌, ◌||◌, Option, none, some, List, [], ◌∷◌, ◌++◌, ltb, leb,
  ◌==◌, if◌then◌else◌, keep,
}
use fips_exit_gate.Store.State.{
  Kind, volume, time, Entitlement, PackageRow, Status, pending, processing, settled, expired,
  invalid, PurchaseRow, Db, AccountRow,
}
use fips_exit_gate.Store.Authz.{any}
use fips_exit_gate.Store.Whitelist.{
  StoreError, purchase_not_found, package_not_found, constraint_violation, find, after_recompute,
  with_whitelist, activate_owner_row,
}
use fips_exit_gate.Store.Accounts.{Result, done, with_account}

unfoldable pub is_settled : Status → Bool
is_settled settled = true
is_settled _ = false

unfoldable pub is_pending : Status → Bool
is_pending pending = true
is_pending _ = false

-- NULL equals nothing.
unfoldable pub is_some : ℕ → Option ℕ → Bool
is_some n none = false
is_some n (some m) = n == m

unfoldable pub has_invoice : ℕ → PurchaseRow → Bool
unfolding is_some
has_invoice invoice p = is_some invoice p.invoice_id

-- An entitlement that was granted for the purchase.
unfoldable pub is_grant_of : ℕ → Entitlement → Bool
unfolding is_some
is_grant_of purchase e = is_some purchase e.purchase_id

-- `UPDATE purchases … WHERE id = $1`.
unfoldable pub update_purchase :
    (PurchaseRow → PurchaseRow) → ℕ → List PurchaseRow → List PurchaseRow
update_purchase f id [] = []
update_purchase f id (p ∷ ps) = (if p.id == id then f p else p) ∷ update_purchase f id ps

unfoldable pub with_purchases : List PurchaseRow → Db → Db
with_purchases ps db = record db { purchases = ps }

-- A package that is not there violates the foreign key.
unfoldable pub create_purchase : ℕ → ℕ → ℕ → Db → Result
unfolding with_purchases
create_purchase fresh npub pkg db = with_account npub db (λ a.
    if any (λ (k : PackageRow). k.id == pkg) db.packages
    then done (
        with_purchases
          (db.purchases
            ++ record {
              id = fresh;
              account_id = a.id;
              package_id = pkg;
              invoice_id = none;
              status = pending;
              settled_at = none;
            }
              ∷ [])
          db)
    else (db, some constraint_violation))

unfoldable pub attach_invoice : ℕ → ℕ → Db → Result
unfolding update_purchase with_purchases
attach_invoice purchase invoice db =
    if any (λ (p : PurchaseRow). p.id == purchase) db.purchases
    then done (
        with_purchases
          (update_purchase (λ p. record p { invoice_id = some invoice }) purchase db.purchases) db)
    else (db, some purchase_not_found)

-- `UPDATE purchases SET status = 'processing' WHERE btcpay_invoice_id = $1 AND status = 'pending'`.
unfoldable pub process_rows : ℕ → List PurchaseRow → List PurchaseRow
unfolding has_invoice is_pending
process_rows invoice [] = []
process_rows invoice (p ∷ ps) =
    (if has_invoice invoice p && is_pending p.status then record p { status = processing } else p)
    ∷ process_rows invoice ps

unfoldable pub mark_processing : ℕ → Db → Result
unfolding process_rows with_purchases
mark_processing invoice db =
    if any (has_invoice invoice) db.purchases
    then done (with_purchases (process_rows invoice db.purchases) db)
    else (db, some purchase_not_found)

-- Only the volume kind carries bytes.
unfoldable pub granted_bytes : PackageRow → ℕ
granted_bytes k = elim k.kind [ volume ↦ k.volume_bytes | time ↦ 0 ]

-- `status = $2` and the stamp that is set once.
unfoldable pub set_status : ℕ → Status → PurchaseRow → PurchaseRow
unfolding is_settled
set_status now status p = record p {
  status = status;
  settled_at = elim p.settled_at [
    | none ↦ if is_settled status then some now else none
    | some at ↦ some at
  ];
}

-- The insert of `grantEntitlementTx`, with `ON CONFLICT (purchase_id) DO NOTHING`, and the switch of
-- the buyer's address to its own account if the insert did anything.
unfoldable pub insert_entitlement : ℕ → ℕ → PurchaseRow → PackageRow → Db → Db
unfolding is_grant_of granted_bytes with_whitelist activate_owner_row
insert_entitlement now fresh p k db =
    if any (is_grant_of p.id) db.entitlements
    then db
    else record (with_whitelist (activate_owner_row p.account_id db.whitelist) db) {
      entitlements =
          db.entitlements
          ++ record {
            id = fresh;
            account_id = p.account_id;
            purchase_id = some p.id;
            kind = k.kind;
            volume_bytes = granted_bytes k;
            volume_used = 0;
            starts_at = now;
            expires_at = now + k.validity_s;
          }
            ∷ [];
    }

unfoldable pub grant_package : ℕ → ℕ → Status → PurchaseRow → Option PackageRow → Db → Result
unfolding insert_entitlement set_status update_purchase with_purchases
grant_package now fresh status p none db = (db, some purchase_not_found)
grant_package now fresh status p (some k) db = done (
    with_purchases (update_purchase (set_status now status) p.id db.purchases)
      (insert_entitlement now fresh p k db))

-- `grantEntitlementTx`. The join finds no row if the package is missing.
unfoldable pub grant_entitlement : ℕ → ℕ → Status → PurchaseRow → Db → Result
unfolding grant_package find
grant_entitlement now fresh status p db =
    grant_package now fresh status p (find (λ (k : PackageRow). k.id == p.package_id) db.packages)
      db

-- The body that GrantByInvoice and SettlePurchase share, once the row is read; a recompute ends it.
unfoldable pub settle_row : ℕ → ℕ → StoreError → Option PurchaseRow → Db → Result
unfolding grant_entitlement is_settled
settle_row now fresh missing none db = (db, some missing)
settle_row now fresh missing (some p) db =
    if is_settled p.status then done db else grant_entitlement now fresh settled p db

unfoldable pub end_payment : ℕ → Result → Result
unfolding after_recompute
end_payment now (db, none) = done (after_recompute now db)
end_payment now (db, some e) = (db, some e)

unfoldable pub grant_by_invoice : ℕ → ℕ → ℕ → Db → Result
unfolding settle_row end_payment find
grant_by_invoice now fresh invoice db =
    end_payment now
      (settle_row now fresh purchase_not_found (find (has_invoice invoice) db.purchases) db)

unfoldable pub settle_purchase : ℕ → ℕ → ℕ → Db → Result
unfolding settle_row end_payment find
settle_purchase now fresh purchase db = end_payment now (
    settle_row now fresh package_not_found
      (find (λ (p : PurchaseRow). p.id == purchase) db.purchases) db)

unfoldable pub void_row : Status → Option PurchaseRow → Db → Result
unfolding is_settled is_grant_of update_purchase with_purchases
void_row status none db = (db, some purchase_not_found)
void_row status (some p) db =
    if is_settled p.status
    then done db
    else done (
        with_purchases (update_purchase (λ q. record q { status = status }) p.id db.purchases)
          (record db { entitlements = keep (λ e. not (is_grant_of p.id e)) db.entitlements }))

unfoldable pub void_by_invoice : ℕ → ℕ → Status → Db → Result
unfolding void_row end_payment find
void_by_invoice now invoice status db =
    end_payment now (void_row status (find (has_invoice invoice) db.purchases) db)
