-- ===== src/Store/Whitelist/Counts.antt =====
-- Whitelist rows counted by id and, where they are active, by address.
use mathlib.Core.List.{Memᴰ}
use fips_exit_gate.Base.{
  ℕ, ◌+◌, ◌≤◌, ◌<◌, ◌≡◌, ◌∙◌, refl, sym, ap, Bool, true, false, not, ◌&&◌, List, [], ◌∷◌, ◌++◌,
  arith, ◌==◌, ==_refl, ==_iff, if◌then◌else◌, keep, All, if_cases, Bool-cases, inl, inr,
}
use fips_exit_gate.Store.State.{EntryRow}
use fips_exit_gate.Store.Authz.{any}
use fips_exit_gate.Store.Whitelist.{
  is_active_row, is_entry, activate_row, restore_owner, active_for, insert_owner, invite_row,
  add_row, index_holds, toggle_row,
}

unfoldable pub id_rows : ℕ → List EntryRow → ℕ
id_rows id [] = 0
id_rows id (w ∷ ws) = (if w.id == id then 1 else 0) + id_rows id ws

-- The rows on which an address is active.
unfoldable pub active_rows : ℕ → List EntryRow → ℕ
active_rows addr [] = 0
active_rows addr (w ∷ ws) =
    (if w.fips_addr == addr && is_active_row w then 1 else 0) + active_rows addr ws

pub active_rows_none : (a : ℕ) (ws : List EntryRow) → active_for a ws ≡ false → active_rows a ws ≡ 0
unfolding active_rows active_for any
active_rows_none a [] h = refl
active_rows_none a (w ∷ ws) h = ground (arith, active_rows_none a ws)

pub index_holds_ok : (ws : List EntryRow) → index_holds ws ≡ true → (a : ℕ) → active_rows a ws ≤ 1
unfolding index_holds active_rows
index_holds_ok [] h a = omega arith
index_holds_ok (w ∷ ws) h a = elim (Bool-cases (w.fips_addr == a)) [
  | inl y ↦ ground (
    arith,
    index_holds_ok ws (ground arith) a,
    active_rows_none w.fips_addr ws,
    ap (λ n. active_rows n ws) ((==_iff w.fips_addr a).0 y),
  )
  | inr n ↦ ground (arith, index_holds_ok ws (ground arith) a)
]

-- Where a row has this id, it has this address.
abbrev pub IsAt : ℕ → ℕ → List EntryRow → Type 0
IsAt id addr = All (λ (w : EntryRow). (w.id == id) ≡ true → w.fips_addr ≡ addr)

-- `activateRowTx` leaves the address active on the rows of that id alone, and no other address moves.
pub active_rows-activate_row :
    (id addr a : ℕ) (ws : List EntryRow)
    → IsAt id addr ws
    → active_rows a (activate_row id addr ws)
      ≡ (if a == addr then id_rows id ws else active_rows a ws)
unfolding activate_row active_rows id_rows is_active_row
active_rows-activate_row id addr a [] at = ground arith
active_rows-activate_row id addr a (w ∷ ws) at =
    ground (arith, at.0, active_rows-activate_row id addr a ws at.1)

pub id_rows-activate_row :
    (id addr j : ℕ) (ws : List EntryRow) → id_rows j (activate_row id addr ws) ≡ id_rows j ws
unfolding activate_row id_rows
id_rows-activate_row id addr j [] = refl
id_rows-activate_row id addr j (w ∷ ws) = ground (arith, id_rows-activate_row id addr j ws)

absent_IsAt : (id addr : ℕ) (ws : List EntryRow) → id_rows id ws ≡ 0 → IsAt id addr ws
unfolding id_rows
absent_IsAt id addr [] h = tt
absent_IsAt id addr (w ∷ ws) h = (λ y. ground (arith, y), absent_IsAt id addr ws (ground arith))

pub id_rows_Memᴰ : (w : EntryRow) (ws : List EntryRow) → Memᴰ w ws → 0 < id_rows w.id ws
unfolding id_rows
id_rows_Memᴰ w [] m = elim m [ ]
id_rows_Memᴰ w (v ∷ ws) (Memᴰ.head same) = rw (← same, ==_refl w.id) (omega arith)
id_rows_Memᴰ w (v ∷ ws) (Memᴰ.tail m) = omega (arith, id_rows_Memᴰ w ws m)

pub IsAt-Memᴰ :
    (w : EntryRow) (ws : List EntryRow) → Memᴰ w ws → id_rows w.id ws ≤ 1 → IsAt w.id w.fips_addr ws
unfolding id_rows
IsAt-Memᴰ w [] m one = elim m [ ]
IsAt-Memᴰ w (v ∷ ws) (Memᴰ.head same) one = (
  λ _. sym (ap (λ (z : EntryRow). z.fips_addr) same),
  absent_IsAt w.id w.fips_addr ws (ground (arith, ap (λ (z : EntryRow). z.id) same)),
)
IsAt-Memᴰ w (v ∷ ws) (Memᴰ.tail m) one =
    (λ y. absurd (ground (arith, y, id_rows_Memᴰ w ws m)), IsAt-Memᴰ w ws m (ground arith))

pub active_rows-keep :
    (p : EntryRow → Bool) (a : ℕ) (ws : List EntryRow)
    → active_rows a (keep p ws) ≤ active_rows a ws
unfolding active_rows
active_rows-keep p a [] = omega arith
active_rows-keep p a (w ∷ ws) = ground (arith, active_rows-keep p a ws)

pub id_rows-keep :
    (p : EntryRow → Bool) (j : ℕ) (ws : List EntryRow) → id_rows j (keep p ws) ≤ id_rows j ws
unfolding id_rows
id_rows-keep p j [] = omega arith
id_rows-keep p j (w ∷ ws) = ground (arith, id_rows-keep p j ws)

module _ (fresh acct npub addr : ℕ) where
  pub active_rows-invite_row :
      (a : ℕ) (ws : List EntryRow)
      → active_rows a (invite_row fresh acct npub addr ws).0 ≡ active_rows a ws
  unfolding invite_row active_rows is_active_row
  active_rows-invite_row a [] = ground arith
  active_rows-invite_row a (w ∷ ws) = ground (arith, active_rows-invite_row a ws)

  pub id_rows-invite_row :
      (j : ℕ) (ws : List EntryRow)
      → id_rows j (invite_row fresh acct npub addr ws).0
        ≤ id_rows j ws + (if j == fresh then 1 else 0)
  unfolding invite_row id_rows
  id_rows-invite_row j [] = ground arith
  id_rows-invite_row j (w ∷ ws) = ground (arith, id_rows-invite_row j ws)

  pub id_rows-add_row :
      (j : ℕ) (ws : List EntryRow)
      → id_rows j (add_row fresh acct npub addr ws) ≤ id_rows j ws + (if j == fresh then 1 else 0)
  unfolding add_row id_rows
  id_rows-add_row j [] = ground arith
  id_rows-add_row j (w ∷ ws) = ground (arith, id_rows-add_row j ws)

active_rows-append :
    (a : ℕ) (vs us : List EntryRow) → active_rows a (vs ++ us) ≡ active_rows a vs + active_rows a us
unfolding active_rows
active_rows-append a [] us = omega arith
active_rows-append a (v ∷ vs) us = omega (arith, active_rows-append a vs us)

-- The new owner row is active only where no other row is.
pub active_rows-insert_owner :
    (fresh acct npub addr a : ℕ) (ws : List EntryRow)
    → active_rows a ws ≤ 1
    → active_rows a (insert_owner fresh acct npub addr ws) ≤ 1
unfolding insert_owner
active_rows-insert_owner fresh acct npub addr a ws one =
    if_cases (λ (vs : List EntryRow). active_rows a vs ≤ 1) (any (is_entry acct npub) ws) (λ _. one)
      (λ _. rw (active_rows-append a ws _) (
        unfold active_rows is_active_row in
        added (addr == a) (active_for addr ws) one (λ y free.
          ap (λ n. active_rows n ws) (sym ((==_iff addr a).0 y)) ∙ active_rows_none addr ws free)))
  where
    added :
        (b taken : Bool) {n : ℕ}
        → n ≤ 1
        → (b ≡ true → taken ≡ false → n ≡ 0)
        → n + ((if b && (not taken && true) then 1 else 0) + 0) ≤ 1
    added true true k z = omega (arith, k)
    added true false k z = let nil = z refl refl in omega arith
    added false taken k z = omega (arith, k)

id_rows-append :
    (j : ℕ) (vs us : List EntryRow) → id_rows j (vs ++ us) ≡ id_rows j vs + id_rows j us
unfolding id_rows
id_rows-append j [] us = omega arith
id_rows-append j (v ∷ vs) us = omega (arith, id_rows-append j vs us)

pub id_rows-insert_owner :
    (fresh acct npub addr j : ℕ) (ws : List EntryRow)
    → id_rows j (insert_owner fresh acct npub addr ws)
      ≤ id_rows j ws + (if j == fresh then 1 else 0)
unfolding insert_owner
id_rows-insert_owner fresh acct npub addr j ws =
    if_cases (λ (vs : List EntryRow). id_rows j vs ≤ id_rows j ws + (if j == fresh then 1 else 0))
      (any (is_entry acct npub) ws) (λ _. ground arith)
      (λ _. rw (id_rows-append j ws _) (unfold id_rows in ground arith))

pub id_rows-restore_owner :
    (addr j : ℕ) (ws : List EntryRow) → id_rows j (restore_owner addr ws) ≡ id_rows j ws
unfolding restore_owner id_rows
id_rows-restore_owner addr j [] = refl
id_rows-restore_owner addr j (w ∷ ws) = ground (arith, id_rows-restore_owner addr j ws)

pub id_rows-toggle_row :
    (enabled : Bool) (acct npub j : ℕ) (ws all : List EntryRow)
    → id_rows j (toggle_row enabled acct npub ws all) ≡ id_rows j ws
unfolding toggle_row id_rows
id_rows-toggle_row enabled acct npub j [] all = refl
id_rows-toggle_row enabled acct npub j (w ∷ ws) all =
    ground (arith, id_rows-toggle_row enabled acct npub j ws all)
