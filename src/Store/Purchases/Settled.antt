-- ===== src/Store/Purchases/Settled.antt =====
-- What each operation on purchases keeps: one entitlement for a settled purchase, none for another.
use fips_exit_gate.Base.{
  ℕ, ◌+◌, ◌≤◌, ◌≡◌, ◌∙◌, refl, sym, ap, Bool, true, false, not, Option, none, some, [], ◌∷◌, ◌++◌,
  arith, ◌==◌, ==_iff, if◌then◌else◌, if_cases, keep, Option-cases, inl, inr,
}
use fips_exit_gate.Store.State.{AccountRow, PackageRow, Status, settled, pending, PurchaseRow, Db}
use fips_exit_gate.Store.Authz.{any}
use fips_exit_gate.Store.Whitelist.{StoreError, find, account_by_npub}
use fips_exit_gate.Store.Accounts.{Result, on_account, with_account}
use fips_exit_gate.Store.Purchases.{
  is_settled, is_some, is_grant_of, has_invoice, update_purchase, with_purchases, create_purchase,
  attach_invoice, mark_processing, set_status, insert_entitlement, grant_package, grant_entitlement,
  settle_row, end_payment, void_row,
}
use fips_exit_gate.Store.Purchases.Rows.{
  grants, rows, settled_rows, rows_Memᴰ, find_ok, settled_rows-zero, rows-update_purchase,
  settled_rows-settle, settled_rows-close, settled_rows-same, rows-process_rows,
  settled_rows-process_rows, rows-append, settled_rows-append, grants-append, any-grants,
  keep-grants,
}

-- Ids are unique, and each purchase has as many entitlements as it is settled: one or none.
pub record IsSound (db : Db) : Type 0 where
  pub keyed : (id : ℕ) → rows id db.purchases ≤ 1
  pub matched : (id : ℕ) → grants id db.entitlements ≡ settled_rows id db.purchases

-- From one state to a later one: sound again, and no settled purchase has been reopened.
pub record Keeps (db db' : Db) : Type 0 where
  pub sound : IsSound db'
  pub lasting : (id : ℕ) → settled_rows id db.purchases ≤ settled_rows id db'.purchases

pub Keeps-refl : (db : Db) → IsSound db → Keeps db db
Keeps-refl db s = record { sound = s; lasting = λ id. omega arith }

-- What else a state holds does not matter.
pub Keeps-end_payment :
    (now : ℕ) (db : Db) (r : Result) → Keeps db r.0 → Keeps db (end_payment now r).0
unfolding end_payment
Keeps-end_payment now db (db', none) k = record {
  sound = record { keyed = k.sound.keyed; matched = k.sound.matched };
  lasting = k.lasting;
}
Keeps-end_payment now db (db', some e) k = k

grants-insert_entitlement :
    (now fresh j : ℕ) (p : PurchaseRow) (k : PackageRow) (db : Db)
    → grants p.id db.entitlements ≡ 0
    → grants j (insert_entitlement now fresh p k db).entitlements
      ≡ grants j db.entitlements + (if j == p.id then 1 else 0)
unfolding insert_entitlement
grants-insert_entitlement now fresh j p k db none_yet =
    simp (any-grants p.id db.entitlements none_yet)
      (grants-append j db.entitlements _ ∙ unfold grants is_grant_of is_some in omega arith)

purchases-insert_entitlement :
    (now fresh : ℕ) (p : PurchaseRow) (k : PackageRow) (db : Db)
    → (insert_entitlement now fresh p k db).purchases ≡ db.purchases
unfolding insert_entitlement
purchases-insert_entitlement now fresh p k db =
    if_cases (λ (d : Db). d.purchases ≡ db.purchases) (any (is_grant_of p.id) db.entitlements)
      (λ _. refl) (λ _. refl)

settle_count :
    (b : Bool) {g g' s s' r : ℕ}
    → g ≡ s
    → g' ≡ g + (if b then 1 else 0)
    → s' ≡ (if b then r else s)
    → (b ≡ true → (r ≡ 1) × (s ≡ 0))
    → (g' ≡ s') × (s ≤ s')
settle_count true m p q z = let (one, nil) = z refl in (omega arith, omega arith)
settle_count false m p q z = (omega arith, omega arith)

close_count :
    (b : Bool) {g s s' : ℕ}
    → g ≡ s
    → s' ≡ (if b then 0 else s)
    → (b ≡ true → s ≡ 0)
    → (g ≡ s') × (s ≤ s')
close_count true m q z = let nil = z refl in (omega arith, omega arith)
close_count false m q z = (omega arith, omega arith)

new_count : (b : Bool) {r : ℕ} → r ≤ 1 → (b ≡ true → r ≡ 0) → r + ((if b then 1 else 0) + 0) ≤ 1
new_count true k z = let nil = z refl in omega arith
new_count false k z = omega (arith, k)

module _ (db : Db) (sound : IsSound db) where
  -- The id of an unsettled row of the table has neither settled rows nor entitlements.
  ungranted :
      (p : PurchaseRow) (q : PurchaseRow → Bool)
      → find q db.purchases ≡ some p
      → is_settled p.status ≡ false
      → (settled_rows p.id db.purchases ≡ 0) × (grants p.id db.entitlements ≡ 0)
  ungranted p q found unsettled =
      let zero =
        settled_rows-zero p db.purchases (find_ok q db.purchases found).0 (sound.keyed p.id)
          unsettled in
      (zero, sound.matched p.id ∙ zero)

  present :
      (p : PurchaseRow) (q : PurchaseRow → Bool)
      → find q db.purchases ≡ some p
      → rows p.id db.purchases ≡ 1
  present p q found =
      omega (arith, rows_Memᴰ p db.purchases (find_ok q db.purchases found).0, sound.keyed p.id)

  Keeps-grant_package :
      (now fresh : ℕ) (p : PurchaseRow) (q : PurchaseRow → Bool) (o : Option PackageRow)
      → find q db.purchases ≡ some p
      → is_settled p.status ≡ false
      → Keeps db (grant_package now fresh settled p o db).0
  unfolding grant_package
  Keeps-grant_package now fresh p q none found unsettled = Keeps-refl db sound
  Keeps-grant_package now fresh p q (some k) found unsettled =
      let f = set_status now settled in
      let (nil, none_yet) = ungranted p q found unsettled in
      let count = λ (id : ℕ).
        settle_count (id == p.id) (sound.matched id)
          (grants-insert_entitlement now fresh id p k db none_yet)
          (settled_rows-settle f (λ _. refl) p.id id db.purchases (λ _. unfold is_settled in refl))
          (λ y.
            let same = (==_iff id p.id).0 y in
            (
              ap (λ n. rows n db.purchases) same ∙ present p q found,
              ap (λ n. settled_rows n db.purchases) same ∙ nil,
            )) in
      record {
        sound = record {
          keyed =
              λ id. rw (rows-update_purchase f (λ _. refl) p.id id db.purchases) (sound.keyed id);
          matched = λ id. (count id).0;
        };
        lasting = λ id. (count id).1;
      }

  Keeps-grant_entitlement :
      (now fresh : ℕ) (p : PurchaseRow) (q : PurchaseRow → Bool)
      → find q db.purchases ≡ some p
      → is_settled p.status ≡ false
      → Keeps db (grant_entitlement now fresh settled p db).0
  unfolding grant_entitlement
  Keeps-grant_entitlement now fresh p q found unsettled =
      Keeps-grant_package now fresh p q
        (find (λ (k : PackageRow). k.id == p.package_id) db.packages) found unsettled

  pub Keeps-settle_row :
      (now fresh : ℕ) (missing : StoreError) (q : PurchaseRow → Bool)
      → Keeps db (settle_row now fresh missing (find q db.purchases) db).0
  unfolding settle_row
  Keeps-settle_row now fresh missing q = elim (Option-cases (find q db.purchases)) [
    | inl e ↦ rw e (Keeps-refl db sound)
    | inr (p, e) ↦ rw e (
        if_cases (λ (r : Result). Keeps db r.0) (is_settled p.status) (λ _. Keeps-refl db sound)
          (λ unsettled. Keeps-grant_entitlement now fresh p q e unsettled))
  ]

  Keeps-void :
      (p : PurchaseRow) (q : PurchaseRow → Bool) (status : Status)
      → is_settled status ≡ false
      → find q db.purchases ≡ some p
      → is_settled p.status ≡ false
      → Keeps db (
          with_purchases
            (update_purchase (λ r. record r { status = status }) p.id db.purchases)
            (record db { entitlements = keep (λ e. not (is_grant_of p.id e)) db.entitlements }))
  unfolding with_purchases
  Keeps-void p q status closed found unsettled =
      let f : PurchaseRow → PurchaseRow = λ r. record r { status = status } in
      let (nil, none_yet) = ungranted p q found unsettled in
      let count = λ (id : ℕ).
        close_count (id == p.id) (sound.matched id)
          (settled_rows-close f (λ _. refl) p.id id db.purchases (λ _. closed))
          (λ y. ap (λ n. settled_rows n db.purchases) ((==_iff id p.id).0 y) ∙ nil) in
      rw (keep-grants p.id db.entitlements none_yet) (record {
        sound = record {
          keyed =
              λ id. rw (rows-update_purchase f (λ _. refl) p.id id db.purchases) (sound.keyed id);
          matched = λ id. (count id).0;
        };
        lasting = λ id. (count id).1;
      })

  pub Keeps-void_row :
      (status : Status) (q : PurchaseRow → Bool)
      → is_settled status ≡ false
      → Keeps db (void_row status (find q db.purchases) db).0
  unfolding void_row
  Keeps-void_row status q closed = elim (Option-cases (find q db.purchases)) [
    | inl e ↦ rw e (Keeps-refl db sound)
    | inr (p, e) ↦ rw e (
        if_cases (λ (r : Result). Keeps db r.0) (is_settled p.status) (λ _. Keeps-refl db sound)
          (λ unsettled. Keeps-void p q status closed e unsettled))
  ]

  pub Keeps-mark_processing : (invoice : ℕ) → Keeps db (mark_processing invoice db).0
  unfolding mark_processing
  Keeps-mark_processing invoice =
      if_cases (λ (r : Result). Keeps db r.0) (any (has_invoice invoice) db.purchases)
        (λ _. record {
          sound = record {
            keyed = λ id. rw (rows-process_rows invoice id db.purchases) (sound.keyed id);
            matched =
                λ id. rw (settled_rows-process_rows invoice id db.purchases) (sound.matched id);
          };
          lasting = λ id. omega (arith, settled_rows-process_rows invoice id db.purchases);
        })
        (λ _. Keeps-refl db sound)

  pub Keeps-attach_invoice :
      (purchase invoice : ℕ) → Keeps db (attach_invoice purchase invoice db).0
  unfolding attach_invoice
  Keeps-attach_invoice purchase invoice =
      let f : PurchaseRow → PurchaseRow = λ p. record p { invoice_id = some invoice } in
      let same = λ (id : ℕ). settled_rows-same f (λ p. refl) purchase id db.purchases (λ p. refl) in
      if_cases (λ (r : Result). Keeps db r.0)
        (any (λ (p : PurchaseRow). p.id == purchase) db.purchases)
        (λ _. record {
          sound = record {
            keyed = λ id.
                rw (rows-update_purchase f (λ p. refl) purchase id db.purchases) (sound.keyed id);
            matched = λ id. sound.matched id ∙ sym (same id);
          };
          lasting = λ id. omega (arith, same id);
        })
        (λ _. Keeps-refl db sound)

  Keeps-with_account :
      (npub : ℕ) (act : AccountRow → Result)
      → ((a : AccountRow) → Keeps db (act a).0)
      → Keeps db (with_account npub db act).0
  unfolding with_account
  Keeps-with_account npub act all = on (account_by_npub npub db)
    where
      on : (o : Option AccountRow) → Keeps db (on_account o db act).0
      on none = Keeps-refl db sound
      on (some a) = all a

  Keeps_new :
      (fresh id acct pkg : ℕ)
      → rows fresh db.purchases ≡ 0
      → let ps =
          db.purchases
          ++ record {
            id = fresh;
            account_id = acct;
            package_id = pkg;
            invoice_id = none;
            status = pending;
            settled_at = none;
          }
            ∷ [] in
        (rows id ps ≤ 1) × (settled_rows id ps ≡ settled_rows id db.purchases)
  Keeps_new fresh id acct pkg new =
      let added : PurchaseRow = record {
        id = fresh;
        account_id = acct;
        package_id = pkg;
        invoice_id = none;
        status = pending;
        settled_at = none;
      } in
      let same = λ (y : (fresh == id) ≡ true).
        ap (λ n. rows n db.purchases) (sym ((==_iff fresh id).0 y)) ∙ new in
      (
        rw (rows-append id db.purchases (added ∷ []))
            (unfold rows in new_count (fresh == id) (sound.keyed id) same),
        settled_rows-append id db.purchases (added ∷ [])
            ∙ unfold settled_rows is_settled in ground arith,
      )

  pub Keeps-create_purchase :
      (fresh npub pkg : ℕ)
      → rows fresh db.purchases ≡ 0
      → Keeps db (create_purchase fresh npub pkg db).0
  unfolding create_purchase
  Keeps-create_purchase fresh npub pkg new = Keeps-with_account npub _ (λ a.
      if_cases (λ (r : Result). Keeps db r.0) (any (λ (k : PackageRow). k.id == pkg) db.packages)
        (λ _. record {
          sound = record {
            keyed = λ id. (Keeps_new fresh id a.id pkg new).0;
            matched = λ id. sound.matched id ∙ sym (Keeps_new fresh id a.id pkg new).1;
          };
          lasting = λ id. omega (arith, (Keeps_new fresh id a.id pkg new).1);
        })
        (λ _. Keeps-refl db sound))
