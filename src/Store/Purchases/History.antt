-- ===== src/Store/Purchases/History.antt =====
-- Webhooks, polls and the administrator move purchases in any order: what a settled purchase has.
use fips_exit_gate.Base.{ℕ, ◌≡◌, ◌==◌, refl, arith}
use fips_exit_gate.Store.State.{expired, invalid, PurchaseRow, Db}
use fips_exit_gate.Store.Purchases.{
  is_settled, has_invoice, create_purchase, attach_invoice, mark_processing, grant_by_invoice,
  settle_purchase, void_by_invoice,
}
use fips_exit_gate.Store.Purchases.Rows.{rows}
use fips_exit_gate.Store.Purchases.Settled.{
  IsSound, Keeps, Keeps-refl, Keeps-end_payment, Keeps-create_purchase, Keeps-attach_invoice,
  Keeps-mark_processing, Keeps-settle_row, Keeps-void_row,
}

-- What happens to the tables of purchases: the buyer's and the administrator's calls, and the
-- payment provider's webhooks, with the ids that the database gives out.
pub data Payment : Type 0 where
  created : ℕ → ℕ → ℕ → Payment
  invoiced : ℕ → ℕ → Payment
  seen : ℕ → Payment
  paid : ℕ → ℕ → ℕ → Payment
  approved : ℕ → ℕ → ℕ → Payment
  lapsed : ℕ → ℕ → Payment
  voided : ℕ → ℕ → Payment

unfoldable pub happen : Db → Payment → Db
happen db (created fresh npub pkg) = (create_purchase fresh npub pkg db).0
happen db (invoiced purchase invoice) = (attach_invoice purchase invoice db).0
happen db (seen invoice) = (mark_processing invoice db).0
happen db (paid now fresh invoice) = (grant_by_invoice now fresh invoice db).0
happen db (approved now fresh purchase) = (settle_purchase now fresh purchase db).0
happen db (lapsed now invoice) = (void_by_invoice now invoice expired db).0
happen db (voided now invoice) = (void_by_invoice now invoice invalid db).0

-- The id of a new purchase is on no other.
abbrev pub IsNew : Db → Payment → Type 0
IsNew db (created fresh npub pkg) = rows fresh db.purchases ≡ 0
IsNew db _ = Unit

-- Any sequence of payments.
pub data History (db : Db) : Db → Type 0 where
  begin : History db db
  after : {db' : Db} (e : Payment) → History db db' → IsNew db' e → History db (happen db' e)

Keeps-happen : (db : Db) (e : Payment) → IsNew db e → IsSound db → Keeps db (happen db e)
unfolding happen grant_by_invoice settle_purchase void_by_invoice
Keeps-happen db (created fresh npub pkg) new s = Keeps-create_purchase db s fresh npub pkg new
Keeps-happen db (invoiced purchase invoice) new s = Keeps-attach_invoice db s purchase invoice
Keeps-happen db (seen invoice) new s = Keeps-mark_processing db s invoice
Keeps-happen db (paid now fresh invoice) new s =
    Keeps-end_payment now db _ (Keeps-settle_row db s now fresh _ (has_invoice invoice))
Keeps-happen db (approved now fresh purchase) new s =
    Keeps-end_payment now db _
      (Keeps-settle_row db s now fresh _ (λ (p : PurchaseRow). p.id == purchase))
Keeps-happen db (lapsed now invoice) new s =
    Keeps-end_payment now db _
      (Keeps-void_row db s expired (has_invoice invoice) (unfold is_settled in refl))
Keeps-happen db (voided now invoice) new s =
    Keeps-end_payment now db _
      (Keeps-void_row db s invalid (has_invoice invoice) (unfold is_settled in refl))

-- However webhooks, polls, buyers and the administrator interleave, with deliveries repeated or out of
-- order: a purchase has one entitlement if it is settled and none otherwise, and a purchase that is
-- settled stays so.
pub History-Keeps : {db db' : Db} → IsSound db → History db db' → Keeps db db'
History-Keeps {db = db} s begin = Keeps-refl db s
History-Keeps {db = db} s (after {db' = db'} e past new) =
    let before = History-Keeps s past in
    let step = Keeps-happen db' e new before.sound in
    record { sound = step.sound; lasting = λ id. omega (arith, before.lasting id, step.lasting id) }
