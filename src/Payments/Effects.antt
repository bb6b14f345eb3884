-- ===== src/Payments/Effects.antt =====
-- What reaches the purchases through the webhooks and the poll.
use fips_exit_gate.Base.{
  ℕ, ◌+◌, ◌≡◌, refl, Bool, true, false, Option, none, some, List, [], ◌∷◌, ◌⊎◌, inl, inr, ltb,
  Bool-cases,
}
use fips_exit_gate.Store.State.{expired, invalid, Db}
use fips_exit_gate.Store.Accounts.{Result}
use fips_exit_gate.Store.Purchases.{mark_processing, grant_by_invoice, void_by_invoice}
use fips_exit_gate.Store.Purchases.History.{
  Payment, created, invoiced, approved, seen, paid, lapsed, voided, happen, IsNew, History, begin,
  after, History-Keeps,
}
use fips_exit_gate.Store.Purchases.Settled.{IsSound, Keeps}
use fips_exit_gate.Payments.{
  EventType, Delivery, Check, no_checker, check_failed, answered, invoice_processing,
  invoice_settled, invoice_invalid, invoice_expired, other_type, unreadable, bad_signature,
  no_event, event, acknowledge, confirm, on_event, btcpay_webhook, PhoenixDelivery,
  payment_received, phoenix_unreadable, phoenix_bad_signature, phoenix_no_event, phoenix_ignored,
  phoenixd_webhook, OpenInvoice, settle_open, sweep, Contact, btcpay, phoenixd, poll, serve,
}

-- Whether a contact says that an invoice is paid: a signed event that the provider confirms, if it is
-- asked; a signed notice of a Lightning payment; or the provider's answer to the poll.
abbrev pub IsVouched : (ℕ → Check) → (ℕ → Option Bool) → Contact → ℕ → Type 0
IsVouched check lookup (btcpay (event invoice_settled paid_one)) i =
    (paid_one ≡ i) × ((check i ≡ no_checker) ⊎ (check i ≡ answered true))
IsVouched check lookup (btcpay _) i = ⊥
IsVouched check lookup (phoenixd (payment_received hash)) i = hash ≡ i
IsVouched check lookup (phoenixd _) i = ⊥
IsVouched check lookup (poll _) i = lookup i ≡ some true

-- A grant is of an invoice with `P`; nobody buys, attaches an invoice or approves here.
abbrev pub IsBackedBy : (ℕ → Type 0) → Payment → Type 0
IsBackedBy P (paid now fresh i) = P i
IsBackedBy P (seen i) = Unit
IsBackedBy P (lapsed now i) = Unit
IsBackedBy P (voided now i) = Unit
IsBackedBy P (created fresh npub pkg) = ⊥
IsBackedBy P (invoiced purchase i) = ⊥
IsBackedBy P (approved now fresh purchase) = ⊥

-- What happens to the purchases between two states.
pub data Backed (P : ℕ → Type 0) (db : Db) : Db → Type 0 where
  unmoved : Backed P db db
  moved :
      {db' : Db} (e : Payment)
      → Backed P db db'
      → IsNew db' e
      → IsBackedBy P e
      → Backed P db (happen db' e)

Backed-History : {P : ℕ → Type 0} {db db' : Db} → Backed P db db' → History db db'
Backed-History unmoved = begin
Backed-History (moved e past new backed) = after e (Backed-History past) new

acknowledge-same : (r : Result) → (acknowledge r).0 ≡ r.0
unfolding acknowledge
acknowledge-same (db, none) = refl
acknowledge-same (db, some e) = refl

module _ (P : ℕ → Type 0) (now ttl : ℕ) (db : Db) where
  seen-Backed : {d : Db} (i : ℕ) → Backed P db d → Backed P db (mark_processing i d).0
  unfolding happen
  seen-Backed i b = moved (seen i) b tt tt

  lapsed-Backed : {d : Db} (i : ℕ) → Backed P db d → Backed P db (void_by_invoice now i expired d).0
  unfolding happen
  lapsed-Backed i b = moved (lapsed now i) b tt tt

  voided-Backed : {d : Db} (i : ℕ) → Backed P db d → Backed P db (void_by_invoice now i invalid d).0
  unfolding happen
  voided-Backed i b = moved (voided now i) b tt tt

  paid-Backed :
      {d : Db} (fresh i : ℕ) → P i → Backed P db d → Backed P db (grant_by_invoice now fresh i d).0
  unfolding happen
  paid-Backed fresh i p b = moved (paid now fresh i) b tt p

  -- The contact's own effect.
  settle_open-Backed :
      {d : Db} (fresh : ℕ) (o : OpenInvoice) (answer : Option Bool)
      → (answer ≡ some true → P o.invoice)
      → Backed P db d
      → Backed P db (settle_open now ttl fresh o answer d)
  unfolding settle_open
  settle_open-Backed fresh o none p b = b
  settle_open-Backed fresh o (some true) p b = paid-Backed fresh o.invoice (p refl) b
  settle_open-Backed {d = d} fresh o (some false) p b =
      elim (Bool-cases (ltb (o.created_at + ttl) now)) [
        | inl old ↦ rw old (lapsed-Backed o.invoice b)
        | inr young ↦ rw young b
      ]

  sweep-Backed :
      (fresh : ℕ → ℕ) (lookup : ℕ → Option Bool) (os : List OpenInvoice) {d : Db}
      → ((i : ℕ) → lookup i ≡ some true → P i)
      → Backed P db d
      → Backed P db (sweep now ttl fresh lookup os d)
  unfolding sweep
  sweep-Backed fresh lookup [] p b = b
  sweep-Backed fresh lookup (o ∷ os) p b =
      sweep-Backed fresh lookup os p
        (settle_open-Backed (fresh o.invoice) o (lookup o.invoice) (p o.invoice) b)

  confirm-Backed :
      (fresh i : ℕ) (c : Check)
      → ((c ≡ no_checker) ⊎ (c ≡ answered true) → P i)
      → Backed P db (confirm now fresh i db c).0
  unfolding confirm
  confirm-Backed fresh i no_checker p =
      rw (acknowledge-same (grant_by_invoice now fresh i db))
        (paid-Backed fresh i (p (inl refl)) unmoved)
  confirm-Backed fresh i check_failed p = unmoved
  confirm-Backed fresh i (answered false) p = unmoved
  confirm-Backed fresh i (answered true) p =
      rw (acknowledge-same (grant_by_invoice now fresh i db))
        (paid-Backed fresh i (p (inr refl)) unmoved)

  on_event-Backed :
      (fresh : ℕ → ℕ) (check : ℕ → Check) (type : EventType) (i : ℕ)
      → (type ≡ invoice_settled → (check i ≡ no_checker) ⊎ (check i ≡ answered true) → P i)
      → Backed P db (on_event now fresh check type i db).0
  unfolding on_event
  on_event-Backed fresh check invoice_processing i p =
      rw (acknowledge-same (mark_processing i db)) (seen-Backed i unmoved)
  on_event-Backed fresh check invoice_settled i p = confirm-Backed (fresh i) i (check i) (p refl)
  on_event-Backed fresh check invoice_invalid i p =
      rw (acknowledge-same (void_by_invoice now i invalid db)) (voided-Backed i unmoved)
  on_event-Backed fresh check invoice_expired i p =
      rw (acknowledge-same (void_by_invoice now i expired db)) (lapsed-Backed i unmoved)
  on_event-Backed fresh check other_type i p = unmoved

module _ (now ttl : ℕ) (fresh : ℕ → ℕ) (check : ℕ → Check) (lookup : ℕ → Option Bool) where
  btcpay-Backed :
      (d : Delivery) (db : Db)
      → Backed (IsVouched check lookup (btcpay d)) db (btcpay_webhook now fresh check d db).0
  unfolding btcpay_webhook
  btcpay-Backed unreadable db = unmoved
  btcpay-Backed bad_signature db = unmoved
  btcpay-Backed no_event db = unmoved
  btcpay-Backed (event type i) db =
      on_event-Backed (IsVouched check lookup (btcpay (event type i))) now ttl db fresh check type i
        (vouch type)
    where
      vouch :
          (type : EventType)
          → type ≡ invoice_settled
          → (check i ≡ no_checker) ⊎ (check i ≡ answered true)
          → IsVouched check lookup (btcpay (event type i)) i
      vouch invoice_settled e c = (refl, c)
      vouch invoice_processing e c = cc
      vouch invoice_invalid e c = cc
      vouch invoice_expired e c = cc
      vouch other_type e c = cc

  phoenixd-Backed :
      (d : PhoenixDelivery) (db : Db)
      → Backed (IsVouched check lookup (phoenixd d)) db (phoenixd_webhook now fresh d db).0
  unfolding phoenixd_webhook
  phoenixd-Backed phoenix_unreadable db = unmoved
  phoenixd-Backed phoenix_bad_signature db = unmoved
  phoenixd-Backed phoenix_no_event db = unmoved
  phoenixd-Backed phoenix_ignored db = unmoved
  phoenixd-Backed (payment_received hash) db =
      rw (acknowledge-same (grant_by_invoice now (fresh hash) hash db))
        (paid-Backed _ now ttl db (fresh hash) hash refl unmoved)

  serve-Backed :
      (c : Contact) (db : Db)
      → Backed (IsVouched check lookup c) db (serve now ttl fresh check lookup c db)
  unfolding serve
  serve-Backed (btcpay d) db = btcpay-Backed d db
  serve-Backed (phoenixd d) db = phoenixd-Backed d db
  serve-Backed (poll os) db = sweep-Backed _ now ttl db fresh lookup os (λ i h. h) unmoved

  -- From a sound state of the purchases, whatever is delivered to the webhooks, and whatever the poll
  -- finds: each grant that follows is of an invoice that the contact vouches for, so that a forged,
  -- unreadable or unconfirmed event grants nothing; and the state stays sound, with what was settled
  -- still settled.
  pub serve-IsVouched :
      (c : Contact) (db : Db)
      → IsSound db
      → let db' = serve now ttl fresh check lookup c db in
        Backed (IsVouched check lookup c) db db' × Keeps db db'
  serve-IsVouched c db s = let b = serve-Backed c db in (b, History-Keeps s (Backed-History b))
