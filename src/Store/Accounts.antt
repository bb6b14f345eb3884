-- ===== src/Store/Accounts.antt =====
-- The operations of backend/store/whitelist.go, and CreateAccount, AddWhitelist and
-- SetWhitelistEnabled of backend/store/admin.go, on the rows of Whitelist.
pub mod OneActive
pub mod Changes
pub mod Accept
pub mod Credit
use fips_exit_gate.Base.{
  ℕ, ◌+◌, Bool, true, false, not, ◌&&◌, ◌||◌, Option, none, some, List, [], ◌∷◌, ◌++◌, ltb, leb,
  ◌==◌, if◌then◌else◌, length, keep,
}
use fips_exit_gate.Store.State.{AccountRow, EntryRow, Db}
use fips_exit_gate.Store.Authz.{any, entitled}
use fips_exit_gate.Store.Whitelist.{
  StoreError, guest_limit, no_active_entitlement, self_whitelist, invite_not_found,
  account_not_found, address_in_use, bad_npub, constraint_violation, max_guests, is_guest,
  is_active_row, find, account_by_npub, is_entry, is_invite, after_recompute, with_whitelist,
  activate_row, activate_owner_row, toggle_row, disable_row, insert_account, insert_owner,
  count_guests, invite_row, add_row, index_holds,
}

abbrev pub Result : Type 0
Result = Db × Option StoreError

abbrev pub done : Db → Result
done db = (db, none)

unfoldable pub on_account : Option AccountRow → Db → (AccountRow → Result) → Result
on_account none db act = (db, some account_not_found)
on_account (some a) db act = act a

-- An operation on the account of an npub.
unfoldable pub with_account : ℕ → Db → (AccountRow → Result) → Result
unfolding account_by_npub on_account
with_account npub db act = on_account (account_by_npub npub db) db act

-- What needs the address of an npub.
unfoldable pub at_address : Option ℕ → Db → (ℕ → Result) → Result
at_address none db act = (db, some bad_npub)
at_address (some addr) db act = act addr

module _ (derive : ℕ → Option ℕ) (now : ℕ) where
  -- The three statements are not one transaction; none of them can fail but for the connection.
  unfoldable pub create_account : ℕ → ℕ → ℕ → Db → Result
  unfolding at_address with_account insert_account insert_owner
  create_account fresh_account fresh_entry npub db = at_address (derive npub) db (λ addr.
      let db' = record db { accounts = insert_account fresh_account npub addr db.accounts } in
      with_account npub db' (λ a. done (
        after_recompute now
          (with_whitelist (insert_owner fresh_entry a.id npub addr db'.whitelist) db'))))

  -- The transaction of `InviteGuest` on the inviting account.
  unfoldable pub invite : ℕ → ℕ → ℕ → ℕ → AccountRow → Db → Result
  unfolding invite_row count_guests max_guests
  invite fresh limit guest addr a db =
      if not (entitled now db.entitlements a.id)
      then (db, some no_active_entitlement)
      else if not (any (is_entry a.id guest) db.whitelist)
          && leb (max_guests limit) (count_guests a.id db.whitelist)
      then (db, some guest_limit)
      else done (
          after_recompute now (with_whitelist (invite_row fresh a.id guest addr db.whitelist).0 db))

  unfoldable pub invite_guest : ℕ → ℕ → ℕ → ℕ → Db → Result
  unfolding invite at_address with_account
  invite_guest fresh limit npub guest db = with_account npub db (λ a.
      at_address (derive guest) db (λ addr.
        if addr == a.fips_addr
        then (db, some self_whitelist)
        else invite fresh limit guest addr a db))

  -- The operator's path: the guest is active at once, unless the index refuses it.
  unfoldable pub add_whitelist : ℕ → ℕ → ℕ → Db → Result
  unfolding add_row index_holds at_address with_account
  add_whitelist fresh npub guest db = with_account npub db (λ a.
      at_address (derive guest) db (λ addr.
        let ws = add_row fresh a.id guest addr db.whitelist in
        if index_holds ws
        then done (after_recompute now (with_whitelist ws db))
        else (db, some address_in_use)))

-- The rows that a `DELETE` leaves, or `invite_not_found` if it matches none.
unfoldable pub delete_invites : (EntryRow → Bool) → Db → Result
delete_invites p db =
    if any p db.whitelist
    then done (with_whitelist (keep (λ w. not (p w)) db.whitelist) db)
    else (db, some invite_not_found)

unfoldable pub withdraw_invite : ℕ → ℕ → Db → Result
unfolding delete_invites is_invite with_account
withdraw_invite npub guest db = with_account npub db (λ a. delete_invites (is_invite a.id guest) db)

-- A pending guest row of `guest` on an account of `host`.
unfoldable pub is_invite_from : ℕ → ℕ → List AccountRow → EntryRow → Bool
unfolding is_guest any
is_invite_from guest host accounts w =
    w.npub == guest
    && w.pending
    && is_guest w.role
    && any (λ (a : AccountRow). a.id == w.account_id && a.npub == host) accounts

unfoldable pub decline_invite : ℕ → ℕ → Db → Result
unfolding delete_invites is_invite_from
decline_invite guest host db = delete_invites (is_invite_from guest host db.accounts) db

-- The row that `AcceptInvite` selects: enabled too, and of an active account.
unfoldable pub is_acceptable : ℕ → ℕ → List AccountRow → EntryRow → Bool
unfolding is_guest any
is_acceptable guest host accounts w =
    w.npub == guest
    && w.pending
    && w.enabled
    && is_guest w.role
    && any (λ (a : AccountRow). a.id == w.account_id && a.npub == host && a.active) accounts

unfoldable pub accept_row : ℕ → Db → Option EntryRow → Result
unfolding activate_row after_recompute with_whitelist
accept_row now db none = (db, some invite_not_found)
accept_row now db (some w) =
    if entitled now db.entitlements w.account_id
    then done (after_recompute now (with_whitelist (activate_row w.id w.fips_addr db.whitelist) db))
    else (db, some no_active_entitlement)

unfoldable pub accept_invite : ℕ → ℕ → ℕ → Db → Result
unfolding accept_row is_acceptable find
accept_invite now guest host db =
    accept_row now db (find (is_acceptable guest host db.accounts) db.whitelist)

unfoldable pub activate_owner : ℕ → ℕ → Db → Result
unfolding activate_owner_row with_account
activate_owner now npub db =
    with_account npub db
      (λ a. done (after_recompute now (with_whitelist (activate_owner_row a.id db.whitelist) db)))

unfoldable pub enable_entry : ℕ → AccountRow → Db → Result
unfolding toggle_row with_whitelist index_holds
enable_entry guest a db =
    let ws = toggle_row true a.id guest db.whitelist db.whitelist in
    if index_holds ws then done (with_whitelist ws db) else (db, some constraint_violation)

-- A pending invitation is deleted; an accepted guest is parked, and handed back to its own account.
unfoldable pub disable_entry : ℕ → AccountRow → Db → Result
unfolding disable_row is_invite index_holds
disable_entry guest a db =
    if any (is_invite a.id guest) db.whitelist
    then done (with_whitelist (keep (λ w. not (is_invite a.id guest w)) db.whitelist) db)
    else let ws = disable_row (find (is_entry a.id guest) db.whitelist) a.id guest db.whitelist in
      if index_holds ws then done (with_whitelist ws db) else (db, some constraint_violation)

unfoldable pub finish : ℕ → Result → Result
unfolding after_recompute
finish now (db, none) = done (after_recompute now db)
finish now (db, some e) = (db, some e)

unfoldable pub set_whitelist_enabled : ℕ → ℕ → ℕ → Bool → Db → Result
unfolding finish enable_entry disable_entry with_account
set_whitelist_enabled now npub guest enabled db =
    with_account npub db
      (λ a. finish now (if enabled then enable_entry guest a db else disable_entry guest a db))
