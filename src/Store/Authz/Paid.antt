-- ===== src/Store/Authz/Paid.antt =====
-- Who is authorized after a recompute, in the words of the tables' rows.
use mathlib.Core.List.{Memᴰ}
use fips_exit_gate.Base.{
  ℕ, ◌≤◌, ◌<◌, ◌≡◌, ◌∙◌, ◌↔◌, ◌⊎◌, refl, sym, ap, Bool, true, false, ◌&&◌, ◌||◌, List, [], ◌∷◌,
  arith, inl, inr, ◌==◌, keep, Bool-cases,
}
use fips_exit_gate.Base.Equality.{nat_eq}
use fips_exit_gate.Base.Assoc.{lookup, insert}
use fips_exit_gate.Store.State.{AccountRow, EntryRow, time, Entitlement, Db}
use fips_exit_gate.Store.Authz.{
  any, is_active, entitled, account_active, selected, scan, desired, recompute, is_member,
}
use fips_exit_gate.Store.Authz.Log.{is_member-insert}
use fips_exit_gate.Store.Authz.Recompute.{recompute-desired, is_member_eq}

-- In its validity window, and a time pass or a volume that is not used up.
pub record IsUsable (now : ℕ) (e : Entitlement) : Type 0 where
  pub started : e.starts_at ≤ now
  pub running : now ≤ e.expires_at
  pub capacity : (e.kind ≡ time) ⊎ (e.volume_used < e.volume_bytes)

-- A whitelist entry of the address that its holder accepted, on an active account that has an
-- entitlement which is usable now.
pub record IsPaid (now : ℕ) (db : Db) (a : ℕ) : Type 0 where
  pub entry : EntryRow
  pub listed : Memᴰ entry db.whitelist
  pub of_addr : entry.fips_addr ≡ a
  pub enabled : entry.enabled ≡ true
  pub accepted : entry.pending ≡ false
  pub account : AccountRow
  pub known : Memᴰ account db.accounts
  pub of_account : account.id ≡ entry.account_id
  pub active : account.active ≡ true
  pub entitlement : Entitlement
  pub granted : Memᴰ entitlement db.entitlements
  pub to_account : entitlement.account_id ≡ entry.account_id
  pub usable : IsUsable now entitlement

module _ {ℓ} {A : Type ℓ} (p : A → Bool) where
  pub any_of : (xs : List A) → any p xs ≡ true → (x : A) × Memᴰ x xs × (p x ≡ true)
  unfolding any
  any_of [] h = cc
  any_of (x ∷ xs) h = elim (Bool-cases (p x)) [
    | inl y ↦ (x, Memᴰ.head refl, y)
    | inr n ↦ let (z, m, q) = any_of xs (rw n at h) in (z, Memᴰ.tail m, q)
  ]

  pub of_any : (xs : List A) {x : A} → Memᴰ x xs → p x ≡ true → any p xs ≡ true
  unfolding any
  of_any [] m h = elim m [ ]
  of_any (y ∷ xs) (Memᴰ.head e) h = rw (← e, h) refl
  of_any (y ∷ xs) (Memᴰ.tail m) h = or_right (p y) (of_any xs m h)
    where
      or_right : (b : Bool) {c : Bool} → c ≡ true → (b || c) ≡ true
      or_right true e = refl
      or_right false e = e

  any-keep : (q : A → Bool) (xs : List A) → any p (keep q xs) ≡ any (λ x. q x && p x) xs
  unfolding any
  any-keep q [] = refl
  any-keep q (x ∷ xs) = ground (arith, any-keep q xs)

pub is_active_iff : (now : ℕ) (e : Entitlement) → (is_active now e ≡ true) ↔ IsUsable now e
unfolding is_active
is_active_iff now e = (λ h. ground arith, λ h. ground (arith, h.started, h.running, h.capacity))

member-scan :
    (a : ℕ) (m : List (ℕ × ℕ)) (ws : List EntryRow)
    → is_member a (scan m ws) ≡ (any (λ (w : EntryRow). w.fips_addr == a) ws || is_member a m)
unfolding scan any
member-scan a m [] = refl
member-scan a m (w ∷ ws) = ground (
  arith,
  member-scan a (insert w.fips_addr w.account_id m) ws,
  is_member-insert w.fips_addr a w.account_id m,
)

-- The rows of the query for one address.
abbrev names : ℕ → Db → ℕ → EntryRow → Bool
names now db a w = selected now db w && w.fips_addr == a

member-desired :
    (now : ℕ) (db : Db) (a : ℕ) → is_member a (desired now db) ≡ any (names now db a) db.whitelist
unfolding desired
member-desired now db a =
    member-scan a [] (keep (selected now db) db.whitelist)
    ∙ ap (λ b. b || is_member a [])
        (any-keep (λ (w : EntryRow). w.fips_addr == a) (selected now db) db.whitelist)
    ∙ or_nobody (any (names now db a) db.whitelist)
  where
    or_nobody : (b : Bool) → (b || is_member a []) ≡ b
    or_nobody true = refl
    or_nobody false = unfold is_member lookup in refl

names_parts :
    (now : ℕ) (db : Db) (a : ℕ) (w : EntryRow)
    → names now db a w ≡ true
    → (w.enabled ≡ true)
      × (w.pending ≡ false)
      × (account_active db.accounts w.account_id ≡ true)
      × (entitled now db.entitlements w.account_id ≡ true)
      × (w.fips_addr ≡ a)
unfolding selected
names_parts now db a w h = ground arith

names_of_parts :
    (now : ℕ) (db : Db) (a : ℕ) (w : EntryRow)
    → w.enabled ≡ true
    → w.pending ≡ false
    → account_active db.accounts w.account_id ≡ true
    → entitled now db.entitlements w.account_id ≡ true
    → w.fips_addr ≡ a
    → names now db a w ≡ true
unfolding selected
names_of_parts now db a w enabled accepted active granted of_addr = ground arith

pub both : (n m : ℕ) (b : Bool) → (n == m && b) ≡ true → (n ≡ m) × (b ≡ true)
both n m b h = ground arith

of_both : (n m : ℕ) (b : Bool) → n ≡ m → b ≡ true → (n == m && b) ≡ true
of_both n m b p q = ground arith

IsPaid-of_row :
    (now : ℕ) (db : Db) (a : ℕ) (w : EntryRow)
    → Memᴰ w db.whitelist
    → names now db a w ≡ true
    → IsPaid now db a
unfolding account_active entitled
IsPaid-of_row now db a w m h =
    let (enabled, accepted, open_, paid, of_addr) = names_parts now db a w h in
    let (acct, known, p) =
      any_of (λ (x : AccountRow). x.id == w.account_id && x.active) db.accounts open_ in
    let (e, granted, q) =
      any_of (λ (x : Entitlement). x.account_id == w.account_id && is_active now x) db.entitlements
        paid in
    let (of_account, active) = both acct.id w.account_id acct.active p in
    let (to_account, usable) = both e.account_id w.account_id (is_active now e) q in
    record {
      entry = w;
      listed = m;
      of_addr = of_addr;
      enabled = enabled;
      accepted = accepted;
      account = acct;
      known = known;
      of_account = of_account;
      active = active;
      entitlement = e;
      granted = granted;
      to_account = to_account;
      usable = (is_active_iff now e).0 usable;
    }

row_of_IsPaid : (now : ℕ) (db : Db) (a : ℕ) (p : IsPaid now db a) → names now db a p.entry ≡ true
unfolding account_active entitled
row_of_IsPaid now db a p =
    names_of_parts now db a p.entry p.enabled p.accepted
      (of_any (λ (x : AccountRow). x.id == p.entry.account_id && x.active) db.accounts p.known
        (of_both p.account.id p.entry.account_id p.account.active p.of_account p.active))
      (of_any (λ (x : Entitlement). x.account_id == p.entry.account_id && is_active now x)
        db.entitlements p.granted
        (of_both p.entitlement.account_id p.entry.account_id (is_active now p.entitlement)
          p.to_account ((is_active_iff now p.entitlement).1 p.usable)))
      p.of_addr

-- After a recompute an address is authorized exactly if it is paid for.
pub recompute-IsPaid :
    (now : ℕ) (db : Db) (a : ℕ)
    → (is_member a (recompute now db).0.current ≡ true) ↔ IsPaid now db a
recompute-IsPaid now db a =
    let same =
      is_member_eq a (recompute now db).0.current (desired now db) (recompute-desired now db a).0
      ∙ member-desired now db a in
    (
      λ h.
          let (w, m, q) = any_of (names now db a) db.whitelist (sym same ∙ h) in
          IsPaid-of_row now db a w m q,
      λ p. same ∙ of_any (names now db a) db.whitelist p.listed (row_of_IsPaid now db a p),
    )
