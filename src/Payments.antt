-- ===== src/Payments.antt =====
-- backend/payments_handler.go and backend/reconciler.go: what the payment providers' webhooks, and the
-- poll of open Lightning invoices, do to the purchases. Counters and log lines are left out.
pub mod Effects
use fips_exit_gate.Base.{
  ℕ, ◌+◌, Bool, true, false, Option, none, some, List, [], ◌∷◌, ltb, if◌then◌else◌,
}
use fips_exit_gate.Store.State.{expired, invalid, Db}
use fips_exit_gate.Store.Whitelist.{StoreError, purchase_not_found}
use fips_exit_gate.Store.Accounts.{Result}
use fips_exit_gate.Store.Purchases.{mark_processing, grant_by_invoice, void_by_invoice}

-- The types of a BTCPay event that the handler tells apart.
pub data EventType : Type 0 where
  invoice_processing : EventType
  invoice_settled : EventType
  invoice_invalid : EventType
  invoice_expired : EventType
  other_type : EventType

-- A request to a webhook: what reading its body, the check of its signature and its decoding find.
pub data Delivery : Type 0 where
  unreadable : Delivery
  bad_signature : Delivery
  no_event : Delivery
  event : EventType → ℕ → Delivery

-- `InvoiceStatus` of the provider, where a checker is set: an error, or whether it is "Settled".
pub data Check : Type 0 where
  no_checker : Check
  check_failed : Check
  answered : Bool → Check

-- The status code of a response.
abbrev pub Served : Type 0
Served = Db × ℕ

is_not_found : StoreError → Bool
is_not_found purchase_not_found = true
is_not_found _ = false

-- The `switch err` at the end of a handler.
unfoldable pub acknowledge : Result → Served
unfolding is_not_found
acknowledge (db, none) = (db, 200)
acknowledge (db, some e) = (db, if is_not_found e then 200 else 500)

unfoldable pub confirm : ℕ → ℕ → ℕ → Db → Check → Served
unfolding acknowledge
confirm now fresh invoice db no_checker = acknowledge (grant_by_invoice now fresh invoice db)
confirm now fresh invoice db check_failed = (db, 502)
confirm now fresh invoice db (answered false) = (db, 200)
confirm now fresh invoice db (answered true) = acknowledge (grant_by_invoice now fresh invoice db)

unfoldable pub on_event : ℕ → (ℕ → ℕ) → (ℕ → Check) → EventType → ℕ → Db → Served
unfolding acknowledge confirm
on_event now fresh check invoice_processing invoice db = acknowledge (mark_processing invoice db)
on_event now fresh check invoice_settled invoice db =
    confirm now (fresh invoice) invoice db (check invoice)
on_event now fresh check invoice_invalid invoice db =
    acknowledge (void_by_invoice now invoice invalid db)
on_event now fresh check invoice_expired invoice db =
    acknowledge (void_by_invoice now invoice expired db)
on_event now fresh check other_type invoice db = (db, 200)

-- `payHandler.webhook`.
unfoldable pub btcpay_webhook : ℕ → (ℕ → ℕ) → (ℕ → Check) → Delivery → Db → Served
unfolding on_event
btcpay_webhook now fresh check unreadable db = (db, 400)
btcpay_webhook now fresh check bad_signature db = (db, 401)
btcpay_webhook now fresh check no_event db = (db, 200)
btcpay_webhook now fresh check (event type invoice) db = on_event now fresh check type invoice db

-- `phoenixdHandler.webhook`: `payment_received` is the one type that it acts on.
pub data PhoenixDelivery : Type 0 where
  phoenix_unreadable : PhoenixDelivery
  phoenix_bad_signature : PhoenixDelivery
  phoenix_no_event : PhoenixDelivery
  phoenix_ignored : PhoenixDelivery
  payment_received : ℕ → PhoenixDelivery

unfoldable pub phoenixd_webhook : ℕ → (ℕ → ℕ) → PhoenixDelivery → Db → Served
unfolding acknowledge
phoenixd_webhook now fresh phoenix_unreadable db = (db, 400)
phoenixd_webhook now fresh phoenix_bad_signature db = (db, 401)
phoenixd_webhook now fresh phoenix_no_event db = (db, 200)
phoenixd_webhook now fresh phoenix_ignored db = (db, 200)
phoenixd_webhook now fresh (payment_received hash) db =
    acknowledge (grant_by_invoice now (fresh hash) hash db)

-- An invoice that `ListOpenLightning` has returned.
pub record OpenInvoice : Type 0 where
  pub invoice : ℕ
  pub created_at : ℕ

-- The body of the loop of `sweep`, on the answer of `LookupIncoming` (`none` is an error). What the
-- store returns is only counted.
unfoldable pub settle_open : ℕ → ℕ → ℕ → OpenInvoice → Option Bool → Db → Db
settle_open now ttl fresh o none db = db
settle_open now ttl fresh o (some true) db = (grant_by_invoice now fresh o.invoice db).0
settle_open now ttl fresh o (some false) db =
    if ltb (o.created_at + ttl) now then (void_by_invoice now o.invoice expired db).0 else db

-- `sweep`, with the ids for the entitlements that it may create.
unfoldable pub sweep : ℕ → ℕ → (ℕ → ℕ) → (ℕ → Option Bool) → List OpenInvoice → Db → Db
unfolding settle_open
sweep now ttl fresh lookup [] db = db
sweep now ttl fresh lookup (o ∷ os) db =
    sweep now ttl fresh lookup os (settle_open now ttl (fresh o.invoice) o (lookup o.invoice) db)

-- What reaches the backend from a payment provider, or is asked of one.
pub data Contact : Type 0 where
  btcpay : Delivery → Contact
  phoenixd : PhoenixDelivery → Contact
  poll : List OpenInvoice → Contact

-- `fresh` gives the id of the entitlement that an invoice may get.
unfoldable pub serve : ℕ → ℕ → (ℕ → ℕ) → (ℕ → Check) → (ℕ → Option Bool) → Contact → Db → Db
unfolding btcpay_webhook phoenixd_webhook sweep
serve now ttl fresh check lookup (btcpay d) db = (btcpay_webhook now fresh check d db).0
serve now ttl fresh check lookup (phoenixd d) db = (phoenixd_webhook now fresh d db).0
serve now ttl fresh check lookup (poll open_invoices) db =
    sweep now ttl fresh lookup open_invoices db
