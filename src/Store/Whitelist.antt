-- ===== src/Store/Whitelist.antt =====
-- backend/store/whitelist.go and the account side of backend/store/admin.go: accounts, invitations,
-- and which account an address is active on.
--
-- An operation is a transaction: it returns the tables, which an error leaves as they were.
-- `derive` stands for the address of an npub (pkg/fipsaddr), `fresh` for the id that the database
-- gives to a new row. Npubs are in their canonical form; labels are left out,
-- and so is the unique index on the addresses of accounts, so that more tables are allowed than the
-- database has.
pub mod Counts
use fips_exit_gate.Base.{
  ℕ, ◌+◌, Bool, true, false, not, ◌&&◌, ◌||◌, Option, none, some, List, [], ◌∷◌, ◌++◌, map, ltb,
  leb, ◌==◌, if◌then◌else◌, length, keep,
}
use fips_exit_gate.Store.State.{AccountRow, Role, owner, guest, EntryRow, Db}
use fips_exit_gate.Store.Authz.{any, entitled, recompute}

pub data StoreError : Type 0 where
  guest_limit : StoreError
  no_active_entitlement : StoreError
  self_whitelist : StoreError
  invite_not_found : StoreError
  account_not_found : StoreError
  address_in_use : StoreError
  bad_npub : StoreError
  constraint_violation : StoreError
  purchase_not_found : StoreError
  package_not_found : StoreError

abbrev pub default_max_guests : ℕ
default_max_guests = 5

unfoldable pub max_guests : ℕ → ℕ
max_guests configured = if ltb 0 configured then configured else default_max_guests

unfoldable pub is_guest : Role → Bool
is_guest owner = false
is_guest guest = true

-- The condition of the partial unique index `whitelist_active_addr`.
unfoldable pub is_active_row : EntryRow → Bool
is_active_row w = w.enabled && not w.pending

-- The first row that passes a test.
unfoldable pub find {ℓ} : {A : Type ℓ} → (A → Bool) → List A → Option A
find p [] = none
find p (x ∷ xs) = let rest = find p xs in if p x then some x else rest

unfoldable pub account_by_npub : ℕ → Db → Option AccountRow
unfolding find
account_by_npub npub db = find (λ (a : AccountRow). a.npub == npub) db.accounts

-- The row of an npub under an account (unique).
unfoldable pub is_entry : ℕ → ℕ → EntryRow → Bool
is_entry acct npub w = w.account_id == acct && w.npub == npub

unfoldable pub is_invite : ℕ → ℕ → EntryRow → Bool
unfolding is_guest is_entry
is_invite acct npub w = is_entry acct npub w && is_guest w.role && w.pending

-- The recompute that ends an operation.
unfoldable pub after_recompute : ℕ → Db → Db
after_recompute now db = record db { authz = (recompute now db).0 }

unfoldable pub with_whitelist : List EntryRow → Db → Db
with_whitelist ws db = record db { whitelist = ws }

-- `activateRowTx`: park every other active row of the address, then activate the row.
unfoldable pub park : ℕ → ℕ → List EntryRow → List EntryRow
unfolding is_active_row
park id addr [] = []
park id addr (w ∷ ws) =
    (if w.fips_addr == addr && is_active_row w && not (w.id == id)
      then record w { enabled = false }
      else w)
    ∷ park id addr ws

unfoldable pub activate : ℕ → List EntryRow → List EntryRow
activate id [] = []
activate id (w ∷ ws) =
    (if w.id == id then record w { enabled = true; pending = false } else w) ∷ activate id ws

unfoldable pub activate_row : ℕ → ℕ → List EntryRow → List EntryRow
unfolding park activate
activate_row id addr ws = activate id (park id addr ws)

unfoldable pub activate_found : Option EntryRow → List EntryRow → List EntryRow
unfolding activate_row
activate_found none ws = ws
activate_found (some w) ws = activate_row w.id w.fips_addr ws

-- `activateOwnerTx`.
unfoldable pub activate_owner_row : ℕ → List EntryRow → List EntryRow
unfolding activate_found find is_guest
activate_owner_row acct ws =
    activate_found (find (λ (w : EntryRow). w.account_id == acct && not (is_guest w.role)) ws) ws

-- `reactivateOwnerIfOrphanTx`.
unfoldable pub restore_owner : ℕ → List EntryRow → List EntryRow
unfolding is_guest
restore_owner addr [] = []
restore_owner addr (w ∷ ws) =
    (if w.fips_addr == addr && not (is_guest w.role)
      then record w { enabled = true; pending = false }
      else w)
    ∷ restore_owner addr ws

unfoldable pub active_for : ℕ → List EntryRow → Bool
unfolding any is_active_row
active_for addr ws = any (λ (w : EntryRow). w.fips_addr == addr && is_active_row w) ws

unfoldable pub reactivate_owner_if_orphan : ℕ → List EntryRow → List EntryRow
unfolding active_for restore_owner
reactivate_owner_if_orphan addr ws = if active_for addr ws then ws else restore_owner addr ws

-- `CreateAccount`: the rows that it inserts, each only if its key is new.
unfoldable pub insert_account : ℕ → ℕ → ℕ → List AccountRow → List AccountRow
unfolding any
insert_account fresh npub addr accounts =
    if any (λ (a : AccountRow). a.npub == npub) accounts
    then accounts
    else accounts ++ record { id = fresh; npub = npub; fips_addr = addr; active = true } ∷ []

unfoldable pub insert_owner : ℕ → ℕ → ℕ → ℕ → List EntryRow → List EntryRow
unfolding any is_entry active_for
insert_owner fresh acct npub addr ws =
    if any (is_entry acct npub) ws
    then ws
    else ws
      ++ record {
        id = fresh;
        account_id = acct;
        npub = npub;
        fips_addr = addr;
        role = owner;
        enabled = not (active_for addr ws);
        pending = false;
      }
        ∷ []

unfoldable pub count_guests : ℕ → List EntryRow → ℕ
unfolding is_guest
count_guests acct ws =
    length (keep (λ (w : EntryRow). w.account_id == acct && is_guest w.role && w.enabled) ws)

-- The upsert of `InviteGuest`: a new row is pending; an active one stays; any other is asked again.
unfoldable pub invite_row : ℕ → ℕ → ℕ → ℕ → List EntryRow → List EntryRow × Bool
unfolding is_entry is_active_row
invite_row fresh acct npub addr [] = (
  record {
    id = fresh;
    account_id = acct;
    npub = npub;
    fips_addr = addr;
    role = guest;
    enabled = true;
    pending = true;
  }
      ∷ [],
  true,
)
invite_row fresh acct npub addr (w ∷ ws) =
    let (ws', outstanding) = invite_row fresh acct npub addr ws in
    if is_entry acct npub w
    then (record w { enabled = true; pending = not (is_active_row w) } ∷ ws, not (is_active_row w))
    else (w ∷ ws', outstanding)

-- The upsert of `AddWhitelist`.
unfoldable pub add_row : ℕ → ℕ → ℕ → ℕ → List EntryRow → List EntryRow
unfolding is_entry
add_row fresh acct npub addr [] =
    record {
      id = fresh;
      account_id = acct;
      npub = npub;
      fips_addr = addr;
      role = guest;
      enabled = true;
      pending = false;
    }
    ∷ []
add_row fresh acct npub addr (w ∷ ws) =
    let rest = add_row fresh acct npub addr ws in
    if is_entry acct npub w then record w { enabled = true; pending = false } ∷ ws else w ∷ rest

-- The unique index itself: the address of each active row is on no other active row.
unfoldable pub index_holds : List EntryRow → Bool
unfolding active_for is_active_row
index_holds [] = true
index_holds (w ∷ ws) = not (is_active_row w && active_for w.fips_addr ws) && index_holds ws

-- The `UPDATE` of `SetWhitelistEnabled`: a disabled guest whose address is active on another row
-- comes back pending. The second list is the whole table.
unfoldable pub toggle_row : Bool → ℕ → ℕ → List EntryRow → List EntryRow → List EntryRow
unfolding is_entry is_guest is_active_row any
toggle_row enabled acct npub [] all = []
toggle_row enabled acct npub (w ∷ ws) all =
    let elsewhere =
      any (λ (o : EntryRow). o.fips_addr == w.fips_addr && not (o.id == w.id) && is_active_row o)
        all in
    (if is_entry acct npub w
      then record w {
        enabled = enabled;
        pending =
            if enabled && is_guest w.role && not w.enabled && elsewhere then true else w.pending;
      }
      else w)
    ∷ toggle_row enabled acct npub ws all

unfoldable pub disable_row : Option EntryRow → ℕ → ℕ → List EntryRow → List EntryRow
unfolding toggle_row reactivate_owner_if_orphan
disable_row none acct npub ws = ws
disable_row (some w) acct npub ws =
    reactivate_owner_if_orphan w.fips_addr (toggle_row false acct npub ws ws)
