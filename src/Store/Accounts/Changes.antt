-- ===== src/Store/Accounts/Changes.antt =====
-- Sequences of the operations that touch the whitelist, in any order and by anyone: those of
-- backend/store/whitelist.go and backend/store/admin.go, and the payments and credits that take an
-- address back to its own account.
use fips_exit_gate.Base.{ℕ, ◌≡◌, Bool, Option, none, some, ◌==◌, if_cases}
use fips_exit_gate.Store.State.{
  volume, time, PackageRow, PurchaseRow, Status, settled, Entitlement, Db,
}
use fips_exit_gate.Store.Authz.{any}
use fips_exit_gate.Store.Whitelist.{
  StoreError, purchase_not_found, package_not_found, find, after_recompute, with_whitelist,
  insert_account,
}
use fips_exit_gate.Store.Whitelist.Counts.{id_rows}
use fips_exit_gate.Store.Purchases.{
  is_settled, has_invoice, is_grant_of, with_purchases, insert_entitlement, grant_package,
  grant_entitlement, settle_row, end_payment, grant_by_invoice, settle_purchase, void_row,
  void_by_invoice,
}
use fips_exit_gate.Store.Accounts.Credit.{
  credit_account, credit, credited, credit_volume, credit_time,
}
use fips_exit_gate.Store.Accounts.{
  Result, create_account, invite_guest, add_whitelist, is_invite, withdraw_invite, is_invite_from,
  decline_invite, is_acceptable, accept_invite, activate_owner, set_whitelist_enabled,
}
use fips_exit_gate.Store.Accounts.OneActive.{
  IsIndexed, Fine, IsIndexed-activate_owner_row, Fine-with_account, Fine-at_address,
  Fine-delete_invites, Fine-accept_row, Fine-invite, Fine-add_row, Fine-insert_owner,
  Fine-enable_entry, Fine-disable_entry, Fine-finish,
}

-- An operation with its arguments; `fresh` ids are the database's.
pub data Change : Type 0 where
  created : (fresh_account fresh_entry npub : ℕ) → Change
  invited : (fresh limit npub guest : ℕ) → Change
  granted : (fresh npub guest : ℕ) → Change
  withdrawn : (npub guest : ℕ) → Change
  declined : (guest host : ℕ) → Change
  accepted : (guest host : ℕ) → Change
  returned : (npub : ℕ) → Change
  toggled : (npub guest : ℕ) → Bool → Change
  paid : (fresh invoice : ℕ) → Change
  settled_by_hand : (fresh purchase : ℕ) → Change
  voided : (invoice : ℕ) → Status → Change
  given_volume : (fresh_account fresh_entry fresh npub bytes days : ℕ) → Change
  given_time : (fresh_account fresh_entry fresh npub days : ℕ) → Change

-- The id of a new whitelist row is on no other.
abbrev pub IsNew : Db → Change → Type 0
IsNew db (created account entry npub) = id_rows entry db.whitelist ≡ 0
IsNew db (invited fresh limit npub guest) = id_rows fresh db.whitelist ≡ 0
IsNew db (granted fresh npub guest) = id_rows fresh db.whitelist ≡ 0
IsNew db (given_volume account entry fresh npub bytes days) = id_rows entry db.whitelist ≡ 0
IsNew db (given_time account entry fresh npub days) = id_rows entry db.whitelist ≡ 0
IsNew db _ = Unit

Fine-end_payment : (now : ℕ) (r : Result) → Fine r → Fine (end_payment now r)
unfolding end_payment after_recompute
Fine-end_payment now (db, none) f = f
Fine-end_payment now (db, some e) f = f

-- A payment or a credit.
module _ (db : Db) (i : IsIndexed db.whitelist) where
  Fine-grant :
      (now fresh : ℕ) (status : Status) (p : PurchaseRow) (o : Option PackageRow)
      → Fine (grant_package now fresh status p o db)
  unfolding grant_package insert_entitlement with_purchases with_whitelist
  Fine-grant now fresh status p none = i
  Fine-grant now fresh status p (some k) =
      if_cases (λ (d : Db). IsIndexed d.whitelist) (any (is_grant_of p.id) db.entitlements) (λ _. i)
        (λ _. IsIndexed-activate_owner_row p.account_id db.whitelist i)

  Fine-settle :
      (now fresh : ℕ) (missing : StoreError) (o : Option PurchaseRow)
      → Fine (end_payment now (settle_row now fresh missing o db))
  unfolding settle_row grant_entitlement
  Fine-settle now fresh missing none = Fine-end_payment now _ i
  Fine-settle now fresh missing (some p) =
      Fine-end_payment now _
        (if_cases Fine (is_settled p.status) (λ _. i) (λ _. Fine-grant now fresh settled p _))

  Fine-void :
      (now : ℕ) (status : Status) (o : Option PurchaseRow)
      → Fine (end_payment now (void_row status o db))
  unfolding void_row with_purchases
  Fine-void now status none = Fine-end_payment now _ i
  Fine-void now status (some p) =
      Fine-end_payment now _ (if_cases Fine (is_settled p.status) (λ _. i) (λ _. i))

Fine-credit :
    (now : ℕ) (e : Entitlement) (npub : ℕ) (r : Result) → Fine r → Fine (credit now e npub r)
unfolding credit credit_account after_recompute with_whitelist
Fine-credit now e npub (db, none) i =
    Fine-with_account db i npub _ (λ a. IsIndexed-activate_owner_row a.id db.whitelist i)
Fine-credit now e npub (db, some x) i = i

module _ (derive : ℕ → Option ℕ) where
  unfoldable pub change : ℕ → Db → Change → Db
  change now db (created account entry npub) = (create_account derive now account entry npub db).0
  change now db (invited fresh limit npub guest) =
      (invite_guest derive now fresh limit npub guest db).0
  change now db (granted fresh npub guest) = (add_whitelist derive now fresh npub guest db).0
  change now db (withdrawn npub guest) = (withdraw_invite npub guest db).0
  change now db (declined guest host) = (decline_invite guest host db).0
  change now db (accepted guest host) = (accept_invite now guest host db).0
  change now db (returned npub) = (activate_owner now npub db).0
  change now db (toggled npub guest enabled) = (set_whitelist_enabled now npub guest enabled db).0
  change now db (paid fresh invoice) = (grant_by_invoice now fresh invoice db).0
  change now db (settled_by_hand fresh purchase) = (settle_purchase now fresh purchase db).0
  change now db (voided invoice status) = (void_by_invoice now invoice status db).0
  change now db (given_volume account entry fresh npub bytes days) =
      (credit_volume derive now account entry fresh npub bytes days db).0
  change now db (given_time account entry fresh npub days) =
      (credit_time derive now account entry fresh npub days db).0

  pub data Changes (db : Db) : Db → Type 0 where
    begin : Changes db db
    next :
        {db' : Db} (now : ℕ) (c : Change)
        → Changes db db'
        → IsNew db' c
        → Changes db (change now db' c)

  Fine-create_account :
      (now account entry npub : ℕ) (db : Db)
      → id_rows entry db.whitelist ≡ 0
      → IsIndexed db.whitelist
      → Fine (create_account derive now account entry npub db)
  unfolding create_account after_recompute with_whitelist
  Fine-create_account now account entry npub db new i =
      Fine-at_address db i (derive npub) _ (λ addr.
        let db' : Db = record db { accounts = insert_account account npub addr db.accounts } in
        Fine-with_account db' i npub _ (λ a. Fine-insert_owner db i entry a.id npub addr new))

  IsIndexed-change :
      (now : ℕ) (db : Db) (c : Change)
      → IsNew db c
      → IsIndexed db.whitelist
      → IsIndexed (change now db c).whitelist
  unfolding change credit_volume credit_time invite_guest add_whitelist withdraw_invite
      decline_invite accept_invite activate_owner set_whitelist_enabled grant_by_invoice
      settle_purchase void_by_invoice
  IsIndexed-change now db (created account entry npub) new i =
      Fine-create_account now account entry npub db new i
  IsIndexed-change now db (invited fresh limit npub guest) new i =
      Fine-with_account db i npub _ (λ a. Fine-at_address db i (derive guest) _ (λ addr.
        if_cases Fine (addr == a.fips_addr) (λ _. i)
          (λ _. Fine-invite db i derive now fresh limit guest addr a new)))
  IsIndexed-change now db (granted fresh npub guest) new i = Fine-with_account db i npub _ (λ a.
      Fine-at_address db i (derive guest) _
        (λ addr. Fine-add_row db i now fresh a.id guest addr new))
  IsIndexed-change now db (withdrawn npub guest) new i =
      Fine-with_account db i npub _ (λ a. Fine-delete_invites db i (is_invite a.id guest))
  IsIndexed-change now db (declined guest host) new i =
      Fine-delete_invites db i (is_invite_from guest host db.accounts)
  IsIndexed-change now db (accepted guest host) new i =
      Fine-accept_row db i now (is_acceptable guest host db.accounts)
  IsIndexed-change now db (returned npub) new i = Fine-with_account db i npub _ (λ a.
      unfold after_recompute with_whitelist in IsIndexed-activate_owner_row a.id db.whitelist i)
  IsIndexed-change now db (toggled npub guest enabled) new i = Fine-with_account db i npub _ (λ a.
      Fine-finish now _ (
        if_cases Fine enabled (λ _. Fine-enable_entry db i guest a)
          (λ _. Fine-disable_entry db i guest a)))
  IsIndexed-change now db (paid fresh invoice) new i =
      Fine-settle db i now fresh purchase_not_found (find (has_invoice invoice) db.purchases)
  IsIndexed-change now db (settled_by_hand fresh purchase) new i =
      Fine-settle db i now fresh package_not_found
        (find (λ (p : PurchaseRow). p.id == purchase) db.purchases)
  IsIndexed-change now db (voided invoice status) new i =
      Fine-void db i now status (find (has_invoice invoice) db.purchases)
  IsIndexed-change now db (given_volume account entry fresh npub bytes days) new i =
      Fine-credit now (credited now fresh volume bytes days) npub
        (create_account derive now account entry npub db)
        (Fine-create_account now account entry npub db new i)
  IsIndexed-change now db (given_time account entry fresh npub days) new i =
      Fine-credit now (credited now fresh time 0 days) npub
        (create_account derive now account entry npub db)
        (Fine-create_account now account entry npub db new i)

  -- Whatever sequence the operations on accounts, invitations and whitelist entries, the payments that
  -- are granted, settled by hand or voided, and the operator's credits come in: an address never
  -- becomes active on two rows, and row ids stay unique, where the database gives out new ids.
  pub Changes-IsIndexed :
      {db db' : Db} → IsIndexed db.whitelist → Changes db db' → IsIndexed db'.whitelist
  Changes-IsIndexed i begin = i
  Changes-IsIndexed i (next {db' = db'} now c past new) =
      IsIndexed-change now db' c new (Changes-IsIndexed i past)
