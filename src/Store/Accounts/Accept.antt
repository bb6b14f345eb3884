-- ===== src/Store/Accounts/Accept.antt =====
-- `AcceptInvite`: what an acceptance moves, and that nothing else does.
use mathlib.Core.List.{Memᴰ}
use mathlib.Core.Path.{subst}
use fips_exit_gate.Base.{
  ℕ, ◌≡◌, refl, ap, true, false, not, ◌&&◌, Option, none, some, List, [], ◌∷◌, arith, ◌==◌, ==_refl,
  if◌then◌else◌, keep, Bool-cases, inl, inr,
}
use fips_exit_gate.Store.State.{AccountRow, Role, owner, guest, EntryRow, Entitlement, Db}
use fips_exit_gate.Store.Authz.{any, entitled, is_active}
use fips_exit_gate.Store.Authz.Paid.{IsUsable, any_of, is_active_iff, both}
use fips_exit_gate.Store.Purchases.Rows.{find_ok}
use fips_exit_gate.Store.Whitelist.{
  StoreError, find, is_guest, is_active_row, after_recompute, with_whitelist, activate_row,
}
use fips_exit_gate.Store.Whitelist.Counts.{
  IsAt, active_rows, active_rows-activate_row, IsAt-Memᴰ, id_rows_Memᴰ,
}
use fips_exit_gate.Store.Accounts.{is_acceptable, accept_row, accept_invite}
use fips_exit_gate.Store.Accounts.OneActive.{IsIndexed}

abbrev pub activated : EntryRow → EntryRow
activated w = record w { enabled = true; pending = false }

activated_head :
    (w : EntryRow)
    → activated w ≡ (
        let v =
          if w.fips_addr == w.fips_addr && is_active_row w && not (w.id == w.id)
          then record w { enabled = false }
          else w in
        if v.id == w.id then activated v else v)
activated_head w = elim (Bool-cases (is_active_row w)) [
  | inl y ↦ rw (==_refl w.id, ==_refl w.fips_addr, y, ==_refl w.id) refl
  | inr n ↦ rw (==_refl w.id, ==_refl w.fips_addr, n, ==_refl w.id) refl
]

Memᴰ-activate_row :
    (w : EntryRow) (ws : List EntryRow)
    → Memᴰ w ws
    → Memᴰ (activated w) (activate_row w.id w.fips_addr ws)
unfolding activate_row
Memᴰ-activate_row w [] m = elim m [ ]
Memᴰ-activate_row w (v ∷ ws) (Memᴰ.head same) = Memᴰ.head (rw (← same) (activated_head w))
Memᴰ-activate_row w (v ∷ ws) (Memᴰ.tail m) = Memᴰ.tail (Memᴰ-activate_row w ws m)

-- An invitation of the guest that waits, on an active account of the host.
pub record IsInvitation (guest_npub host : ℕ) (accounts : List AccountRow) (w : EntryRow)
    : Type 0 where
  pub to_guest : w.npub ≡ guest_npub
  pub waits : w.pending ≡ true
  pub stands : w.enabled ≡ true
  pub as_guest : w.role ≡ guest
  pub account : AccountRow
  pub known : Memᴰ account accounts
  pub charged : account.id ≡ w.account_id
  pub of_host : account.npub ≡ host
  pub open_ : account.active ≡ true

-- An entitlement of the account that can be used now.
pub record CanPay (now : ℕ) (entitlements : List Entitlement) (acct : ℕ) : Type 0 where
  pub entitlement : Entitlement
  pub granted : Memᴰ entitlement entitlements
  pub owned : entitlement.account_id ≡ acct
  pub usable : IsUsable now entitlement

invitation_parts :
    (guest_npub host : ℕ) (accounts : List AccountRow) (w : EntryRow)
    → is_acceptable guest_npub host accounts w ≡ true
    → (w.npub ≡ guest_npub)
      × (w.pending ≡ true)
      × (w.enabled ≡ true)
      × (w.role ≡ guest)
      × (any (λ (a : AccountRow). a.id == w.account_id && a.npub == host && a.active) accounts
          ≡ true)
unfolding is_acceptable
invitation_parts guest_npub host accounts w h =
    let (n, p, e, r, a) : (w.npub ≡ guest_npub)
        × (w.pending ≡ true)
        × (w.enabled ≡ true)
        × (is_guest w.role ≡ true)
        × (any (λ (a : AccountRow). a.id == w.account_id && a.npub == host && a.active) accounts
            ≡ true) =
      ground arith in
    (n, p, e, role_of w.role r, a)
  where
    role_of : (r : Role) → is_guest r ≡ true → r ≡ guest
    role_of owner e = unfold is_guest in cc e
    role_of guest e = refl

account_parts :
    (acct host : ℕ) (a : AccountRow)
    → (a.id == acct && a.npub == host && a.active) ≡ true
    → (a.id ≡ acct) × (a.npub ≡ host) × (a.active ≡ true)
account_parts acct host a h = ground arith

IsInvitation-of_test :
    (guest_npub host : ℕ) (accounts : List AccountRow) (w : EntryRow)
    → is_acceptable guest_npub host accounts w ≡ true
    → IsInvitation guest_npub host accounts w
IsInvitation-of_test guest_npub host accounts w h =
    let (to_guest, waits, stands, as_guest, some_account) =
      invitation_parts guest_npub host accounts w h in
    let (a, m, q) =
      any_of (λ (a : AccountRow). a.id == w.account_id && a.npub == host && a.active) accounts
        some_account in
    let (charged, of_host, open_) = account_parts w.account_id host a q in
    record {
      to_guest = to_guest;
      waits = waits;
      stands = stands;
      as_guest = as_guest;
      account = a;
      known = m;
      charged = charged;
      of_host = of_host;
      open_ = open_;
    }

CanPay-of_test :
    (now : ℕ) (es : List Entitlement) (acct : ℕ) → entitled now es acct ≡ true → CanPay now es acct
unfolding entitled
CanPay-of_test now es acct h =
    let (e, m, q) = any_of (λ (x : Entitlement). x.account_id == acct && is_active now x) es h in
    let (owned, usable) = both e.account_id acct (is_active now e) q in
    record { entitlement = e; granted = m; owned = owned; usable = (is_active_iff now e).0 usable }

-- The rows of the other addresses.
abbrev pub elsewhere : ℕ → List EntryRow → List EntryRow
elsewhere addr ws = keep (λ (w : EntryRow). not (w.fips_addr == addr)) ws

elsewhere-activate_row :
    (id addr : ℕ) (ws : List EntryRow)
    → IsAt id addr ws
    → elsewhere addr (activate_row id addr ws) ≡ elsewhere addr ws
unfolding activate_row
elsewhere-activate_row id addr [] at = refl
elsewhere-activate_row id addr (w ∷ ws) at =
    ground (arith, at.0, elsewhere-activate_row id addr ws at.1)

-- An invitation of the host to the guest, on an account that can pay for it, is now the one active
-- row of its address; the rows of every other address are what they were.
pub record Moved (now guest_npub host : ℕ) (db db' : Db) : Type 0 where
  pub row : EntryRow
  pub listed : Memᴰ row db.whitelist
  pub invited : IsInvitation guest_npub host db.accounts row
  pub paid : CanPay now db.entitlements row.account_id
  pub active : Memᴰ (activated row) db'.whitelist
  pub alone : active_rows row.fips_addr db'.whitelist ≡ 1
  pub others : elsewhere row.fips_addr db'.whitelist ≡ elsewhere row.fips_addr db.whitelist

module _ (now invitee host : ℕ) (db : Db) (i : IsIndexed db.whitelist) where
  moved :
      (w : EntryRow)
      → find (is_acceptable invitee host db.accounts) db.whitelist ≡ some w
      → entitled now db.entitlements w.account_id ≡ true
      → Moved now invitee host db
          (after_recompute now (with_whitelist (activate_row w.id w.fips_addr db.whitelist) db))
  unfolding after_recompute with_whitelist
  moved w found paid =
      let (m, q) = find_ok (is_acceptable invitee host db.accounts) db.whitelist found in
      let rows = λ (a : ℕ).
        active_rows-activate_row w.id w.fips_addr a db.whitelist
          (IsAt-Memᴰ w db.whitelist m (i.keyed w.id)) in
      record {
        row = w;
        listed = m;
        invited = IsInvitation-of_test invitee host db.accounts w q;
        paid = CanPay-of_test now db.entitlements w.account_id paid;
        active = Memᴰ-activate_row w db.whitelist m;
        alone =
            rw (rows w.fips_addr, ==_refl w.fips_addr)
              (omega (arith, i.keyed w.id, id_rows_Memᴰ w db.whitelist m));
        others =
            elsewhere-activate_row w.id w.fips_addr db.whitelist
              (IsAt-Memᴰ w db.whitelist m (i.keyed w.id));
      }

  accept_row-Moved :
      (o : Option EntryRow)
      → find (is_acceptable invitee host db.accounts) db.whitelist ≡ o
      → {db' : Db} → accept_row now db o ≡ (db', none)
      → Moved now invitee host db db'
  unfolding accept_row
  accept_row-Moved none found e = cc
  accept_row-Moved (some w) found {db' = db'} e =
      elim (Bool-cases (entitled now db.entitlements w.account_id)) [
        | inr n ↦ cc (rw n at e)
        | inl y ↦
            subst (Moved now invitee host db) (ap (λ (r : Db × Option StoreError). r.0) (rw y at e))
              (moved w found y)
      ]

  -- An acceptance that succeeds activates an enabled and pending guest row that an active account of
  -- the host holds for this guest, where that account has an entitlement that can be used now. The
  -- row is then the one active row of its address, and the rows of every other address stay as they
  -- were.
  pub accept_invite-Moved :
      {db' : Db} → accept_invite now invitee host db ≡ (db', none) → Moved now invitee host db db'
  unfolding accept_invite
  accept_invite-Moved e =
      accept_row-Moved (find (is_acceptable invitee host db.accounts) db.whitelist) refl e
