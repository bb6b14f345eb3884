-- ===== src/Store/Accounts/OneActive.antt =====
-- The rule behind "source to account": an address is active on at most one account, whatever
-- invitations, acceptances and administration the tables go through.
use mathlib.Core.List.{Memᴰ}
use fips_exit_gate.Base.{
  ℕ, ◌+◌, ◌≤◌, ◌≡◌, refl, ap, Bool, true, false, not, ◌&&◌, Option, none, some, List, arith, ◌==◌,
  ==_iff, leb, if◌then◌else◌, if_cases, keep, Bool-cases, inl, inr,
}
use fips_exit_gate.Store.State.{AccountRow, EntryRow, Db}
use fips_exit_gate.Store.Authz.{any, entitled}
use fips_exit_gate.Store.Purchases.Rows.{find_ok}
use fips_exit_gate.Store.Whitelist.{
  find, account_by_npub, is_guest, is_entry, after_recompute, with_whitelist, activate_row,
  activate_found, activate_owner_row, invite_row, add_row, insert_owner, toggle_row, disable_row,
  active_for, address_in_use, index_holds, count_guests, max_guests,
}
use fips_exit_gate.Store.Whitelist.Counts.{
  id_rows, active_rows, index_holds_ok, active_rows-activate_row, id_rows-activate_row, IsAt-Memᴰ,
  active_rows-keep, id_rows-keep, active_rows-invite_row, id_rows-invite_row, id_rows-add_row,
  active_rows-insert_owner, id_rows-insert_owner, id_rows-restore_owner, id_rows-toggle_row,
}
use fips_exit_gate.Store.Accounts.{
  Result, done, on_account, with_account, at_address, invite, delete_invites, is_invite,
  enable_entry, disable_entry, finish, accept_row,
}

-- Ids are unique, and so is the row on which an address is active.
pub record IsIndexed (ws : List EntryRow) : Type 0 where
  pub keyed : (id : ℕ) → id_rows id ws ≤ 1
  pub one : (addr : ℕ) → active_rows addr ws ≤ 1

abbrev pub Fine : Result → Type 0
Fine r = IsIndexed r.0.whitelist

IsIndexed-activate_row :
    (w : EntryRow) (ws : List EntryRow)
    → Memᴰ w ws
    → IsIndexed ws
    → IsIndexed (activate_row w.id w.fips_addr ws)
IsIndexed-activate_row w ws m i = record {
  keyed = λ id. rw (id_rows-activate_row w.id w.fips_addr id ws) (i.keyed id);
  one = λ a.
      rw (active_rows-activate_row w.id w.fips_addr a ws (IsAt-Memᴰ w ws m (i.keyed w.id)))
        (if_cases (λ n. n ≤ 1) (a == w.fips_addr) (λ _. i.keyed w.id) (λ _. i.one a));
}

pub IsIndexed-activate_owner_row :
    (acct : ℕ) (ws : List EntryRow) → IsIndexed ws → IsIndexed (activate_owner_row acct ws)
unfolding activate_owner_row
IsIndexed-activate_owner_row acct ws i =
    found (find (λ (w : EntryRow). w.account_id == acct && not (is_guest w.role)) ws) refl
  where
    found :
        (o : Option EntryRow)
        → find (λ (w : EntryRow). w.account_id == acct && not (is_guest w.role)) ws ≡ o
        → IsIndexed (activate_found o ws)
    found none e = i
    found (some w) e = IsIndexed-activate_row w ws (find_ok _ ws e).0 i

IsIndexed-keep : (p : EntryRow → Bool) (ws : List EntryRow) → IsIndexed ws → IsIndexed (keep p ws)
IsIndexed-keep p ws i = record {
  keyed = λ id. omega (arith, id_rows-keep p id ws, i.keyed id);
  one = λ a. omega (arith, active_rows-keep p a ws, i.one a);
}

-- One more row with an id that is on no other.
keyed_more :
    (fresh : ℕ) (ws ws' : List EntryRow)
    → ((id : ℕ) → id_rows id ws ≤ 1)
    → id_rows fresh ws ≡ 0
    → ((id : ℕ) → id_rows id ws' ≤ id_rows id ws + (if id == fresh then 1 else 0))
    → (id : ℕ) → id_rows id ws' ≤ 1
keyed_more fresh ws ws' k new more id = elim (Bool-cases (id == fresh)) [
  | inl y ↦ ground (arith, more id, ap (λ n. id_rows n ws) ((==_iff id fresh).0 y), new)
  | inr n ↦ ground (arith, more id, k id)
]

IsIndexed-index :
    (ws ws' : List EntryRow)
    → ((id : ℕ) → id_rows id ws' ≤ 1)
    → index_holds ws' ≡ true
    → IsIndexed ws'
IsIndexed-index ws ws' k h = record { keyed = k; one = index_holds_ok ws' h }

module _ (db : Db) (i : IsIndexed db.whitelist) where
  pub Fine-with_account :
      (npub : ℕ) (act : AccountRow → Result)
      → ((a : AccountRow) → Fine (act a))
      → Fine (with_account npub db act)
  unfolding with_account
  Fine-with_account npub act all = on (account_by_npub npub db)
    where
      on : (o : Option AccountRow) → Fine (on_account o db act)
      on none = i
      on (some a) = all a

  pub Fine-at_address :
      (o : Option ℕ) (act : ℕ → Result)
      → ((addr : ℕ) → Fine (act addr))
      → Fine (at_address o db act)
  unfolding at_address
  Fine-at_address none act all = i
  Fine-at_address (some addr) act all = all addr

  pub Fine-delete_invites : (p : EntryRow → Bool) → Fine (delete_invites p db)
  unfolding delete_invites with_whitelist
  Fine-delete_invites p =
      if_cases Fine (any p db.whitelist) (λ _. IsIndexed-keep (λ w. not (p w)) db.whitelist i)
        (λ _. i)

  pub Fine-accept_row :
      (now : ℕ) (q : EntryRow → Bool) → Fine (accept_row now db (find q db.whitelist))
  unfolding accept_row
  Fine-accept_row now q = found (find q db.whitelist) refl
    where
      found : (o : Option EntryRow) → find q db.whitelist ≡ o → Fine (accept_row now db o)
      found none e = i
      found (some w) e =
          if_cases Fine (entitled now db.entitlements w.account_id)
            (λ _. IsIndexed-activate_row w db.whitelist (find_ok q db.whitelist e).0 i) (λ _. i)

  pub Fine-invite :
      (derive : ℕ → Option ℕ) (now fresh limit guest addr : ℕ) (a : AccountRow)
      → id_rows fresh db.whitelist ≡ 0
      → Fine (invite derive now fresh limit guest addr a db)
  unfolding invite after_recompute with_whitelist
  Fine-invite derive now fresh limit guest addr a new =
      if_cases Fine (not (entitled now db.entitlements a.id)) (λ _. i)
        (λ _.
          if_cases Fine
            (not (any (is_entry a.id guest) db.whitelist)
              && leb (max_guests limit) (count_guests a.id db.whitelist))
            (λ _. i)
            (λ _. record {
              keyed =
                  keyed_more fresh db.whitelist (invite_row fresh a.id guest addr db.whitelist).0
                    i.keyed new (λ id. id_rows-invite_row fresh a.id guest addr id db.whitelist);
              one = λ b. rw (active_rows-invite_row fresh a.id guest addr b db.whitelist) (i.one b);
            }))

  pub Fine-add_row :
      (now fresh acct npub addr : ℕ)
      → id_rows fresh db.whitelist ≡ 0
      → let ws = add_row fresh acct npub addr db.whitelist in
        Fine (
          if index_holds ws
          then done (after_recompute now (with_whitelist ws db))
          else (db, some address_in_use))
  unfolding after_recompute with_whitelist
  Fine-add_row now fresh acct npub addr new =
      let ws = add_row fresh acct npub addr db.whitelist in
      if_cases Fine (index_holds ws)
        (λ h. record {
          keyed =
              keyed_more fresh db.whitelist ws i.keyed new
                (λ id. id_rows-add_row fresh acct npub addr id db.whitelist);
          one = index_holds_ok ws h;
        })
        (λ _. i)

  pub Fine-insert_owner :
      (fresh acct npub addr : ℕ)
      → id_rows fresh db.whitelist ≡ 0
      → IsIndexed (insert_owner fresh acct npub addr db.whitelist)
  Fine-insert_owner fresh acct npub addr new = record {
    keyed =
        keyed_more fresh db.whitelist (insert_owner fresh acct npub addr db.whitelist) i.keyed new
          (λ id. id_rows-insert_owner fresh acct npub addr id db.whitelist);
    one = λ a. active_rows-insert_owner fresh acct npub addr a db.whitelist (i.one a);
  }

  keyed-disable_row :
      (o : Option EntryRow) (acct npub id : ℕ)
      → id_rows id (disable_row o acct npub db.whitelist) ≤ 1
  unfolding disable_row
  keyed-disable_row none acct npub id = i.keyed id
  keyed-disable_row (some w) acct npub id =
      let ws = toggle_row false acct npub db.whitelist db.whitelist in
      let same = id_rows-toggle_row false acct npub id db.whitelist db.whitelist in
      if_cases (λ (vs : List EntryRow). id_rows id vs ≤ 1) (active_for w.fips_addr ws)
        (λ _. omega (arith, same, i.keyed id))
        (λ _. omega (arith, id_rows-restore_owner w.fips_addr id ws, same, i.keyed id))

  pub Fine-enable_entry : (guest : ℕ) (a : AccountRow) → Fine (enable_entry guest a db)
  unfolding enable_entry with_whitelist
  Fine-enable_entry guest a =
      let ws = toggle_row true a.id guest db.whitelist db.whitelist in
      if_cases Fine (index_holds ws)
        (λ h. record {
          keyed = λ id.
              omega (
                arith,
                id_rows-toggle_row true a.id guest id db.whitelist db.whitelist,
                i.keyed id,
              );
          one = index_holds_ok ws h;
        })
        (λ _. i)

  pub Fine-disable_entry : (guest : ℕ) (a : AccountRow) → Fine (disable_entry guest a db)
  unfolding disable_entry with_whitelist
  Fine-disable_entry guest a =
      let o = find (is_entry a.id guest) db.whitelist in
      if_cases Fine (any (is_invite a.id guest) db.whitelist)
        (λ _. IsIndexed-keep (λ w. not (is_invite a.id guest w)) db.whitelist i)
        (λ _.
          if_cases Fine (index_holds (disable_row o a.id guest db.whitelist))
            (λ h. record { keyed = keyed-disable_row o a.id guest; one = index_holds_ok _ h })
            (λ _. i))

pub Fine-finish : (now : ℕ) (r : Result) → Fine r → Fine (finish now r)
unfolding finish
Fine-finish now (db, none) f = f
Fine-finish now (db, some e) f = f
