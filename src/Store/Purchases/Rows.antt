-- ===== src/Store/Purchases/Rows.antt =====
-- Purchases and entitlements counted by purchase, and what each statement does to the counts.
use mathlib.Core.List.{Memᴰ}
use fips_exit_gate.Base.{
  ℕ, ◌+◌, ◌≤◌, ◌<◌, ◌≡◌, ◌∙◌, refl, sym, ap, Bool, true, false, not, ◌&&◌, some, List, [], ◌∷◌,
  ◌++◌, arith, ◌==◌, ==_refl, if◌then◌else◌, keep, Bool-cases, some_eq, inl, inr,
}
use fips_exit_gate.Store.State.{Entitlement, PurchaseRow}
use fips_exit_gate.Store.Authz.{any}
use fips_exit_gate.Store.Whitelist.{find}
use fips_exit_gate.Store.Purchases.{
  is_settled, is_grant_of, is_pending, update_purchase, process_rows,
}

unfoldable pub grants : ℕ → List Entitlement → ℕ
grants id [] = 0
grants id (e ∷ es) = (if is_grant_of id e then 1 else 0) + grants id es

unfoldable pub rows : ℕ → List PurchaseRow → ℕ
rows id [] = 0
rows id (p ∷ ps) = (if p.id == id then 1 else 0) + rows id ps

unfoldable pub settled_rows : ℕ → List PurchaseRow → ℕ
settled_rows id [] = 0
settled_rows id (p ∷ ps) = (if p.id == id && is_settled p.status then 1 else 0) + settled_rows id ps

pub settled_rows-le : (id : ℕ) (ps : List PurchaseRow) → settled_rows id ps ≤ rows id ps
unfolding settled_rows rows
settled_rows-le id [] = omega arith
settled_rows-le id (p ∷ ps) = ground (arith, settled_rows-le id ps)

pub find_ok {ℓ} :
    {A : Type ℓ} (q : A → Bool) (xs : List A) {x : A}
    → find q xs ≡ some x
    → Memᴰ x xs × (q x ≡ true)
unfolding find
find_ok q [] e = cc
find_ok q (y ∷ xs) {x = x} e = elim (Bool-cases (q y)) [
  | inl h ↦ let same : x ≡ y = sym (some_eq (rw h at e)) in (Memᴰ.head same, ap q same ∙ h)
  | inr h ↦ let (m, t) = find_ok q xs (rw h at e) in (Memᴰ.tail m, t)
]

pub rows_Memᴰ : (p : PurchaseRow) (ps : List PurchaseRow) → Memᴰ p ps → 0 < rows p.id ps
unfolding rows
rows_Memᴰ p [] m = elim m [ ]
rows_Memᴰ p (q ∷ ps) (Memᴰ.head same) = rw (← same, ==_refl p.id) (omega arith)
rows_Memᴰ p (q ∷ ps) (Memᴰ.tail m) = omega (arith, rows_Memᴰ p ps m)

-- A purchase that is not settled, and whose id is unique, is on no settled row.
pub settled_rows-zero :
    (p : PurchaseRow) (ps : List PurchaseRow)
    → Memᴰ p ps
    → rows p.id ps ≤ 1
    → is_settled p.status ≡ false
    → settled_rows p.id ps ≡ 0
unfolding rows settled_rows
settled_rows-zero p [] m one unsettled = elim m [ ]
settled_rows-zero p (q ∷ ps) (Memᴰ.head same) one unsettled =
    let here : rows p.id ps ≤ 0 = ground (arith, ap (λ (z : PurchaseRow). z.id) same) in
    rw (← same, ==_refl p.id, unsettled) (omega (arith, settled_rows-le p.id ps, here))
settled_rows-zero p (q ∷ ps) (Memᴰ.tail m) one unsettled =
    ground (arith, settled_rows-zero p ps m (omega arith) unsettled, rows_Memᴰ p ps m)

module _ (f : PurchaseRow → PurchaseRow) (keeps : (p : PurchaseRow) → (f p).id ≡ p.id) where
  pub rows-update_purchase :
      (id j : ℕ) (ps : List PurchaseRow) → rows j (update_purchase f id ps) ≡ rows j ps
  unfolding update_purchase rows
  rows-update_purchase id j [] = refl
  rows-update_purchase id j (p ∷ ps) = ground (arith, keeps p, rows-update_purchase id j ps)

  pub settled_rows-settle :
      (id j : ℕ) (ps : List PurchaseRow)
      → ((p : PurchaseRow) → is_settled (f p).status ≡ true)
      → settled_rows j (update_purchase f id ps)
        ≡ (if j == id then rows j ps else settled_rows j ps)
  unfolding update_purchase rows settled_rows
  settled_rows-settle id j [] s = ground arith
  settled_rows-settle id j (p ∷ ps) s = ground (arith, keeps p, s p, settled_rows-settle id j ps s)

  pub settled_rows-close :
      (id j : ℕ) (ps : List PurchaseRow)
      → ((p : PurchaseRow) → is_settled (f p).status ≡ false)
      → settled_rows j (update_purchase f id ps) ≡ (if j == id then 0 else settled_rows j ps)
  unfolding update_purchase settled_rows
  settled_rows-close id j [] s = ground arith
  settled_rows-close id j (p ∷ ps) s = ground (arith, keeps p, s p, settled_rows-close id j ps s)

  pub settled_rows-same :
      (id j : ℕ) (ps : List PurchaseRow)
      → ((p : PurchaseRow) → (f p).status ≡ p.status)
      → settled_rows j (update_purchase f id ps) ≡ settled_rows j ps
  unfolding update_purchase settled_rows
  settled_rows-same id j [] s = refl
  settled_rows-same id j (p ∷ ps) s =
      ground (arith, keeps p, ap is_settled (s p), settled_rows-same id j ps s)

pub rows-process_rows :
    (invoice j : ℕ) (ps : List PurchaseRow) → rows j (process_rows invoice ps) ≡ rows j ps
unfolding process_rows rows
rows-process_rows invoice j [] = refl
rows-process_rows invoice j (p ∷ ps) = ground (arith, rows-process_rows invoice j ps)

pub settled_rows-process_rows :
    (invoice j : ℕ) (ps : List PurchaseRow)
    → settled_rows j (process_rows invoice ps) ≡ settled_rows j ps
unfolding process_rows settled_rows is_pending is_settled
settled_rows-process_rows invoice j [] = refl
settled_rows-process_rows invoice j (p ∷ ps) =
    ground (arith, settled_rows-process_rows invoice j ps)

pub rows-append : (j : ℕ) (ps qs : List PurchaseRow) → rows j (ps ++ qs) ≡ rows j ps + rows j qs
unfolding rows
rows-append j [] qs = omega arith
rows-append j (p ∷ ps) qs = omega (arith, rows-append j ps qs)

pub settled_rows-append :
    (j : ℕ) (ps qs : List PurchaseRow)
    → settled_rows j (ps ++ qs) ≡ settled_rows j ps + settled_rows j qs
unfolding settled_rows
settled_rows-append j [] qs = omega arith
settled_rows-append j (p ∷ ps) qs = omega (arith, settled_rows-append j ps qs)

pub grants-append :
    (j : ℕ) (es fs : List Entitlement) → grants j (es ++ fs) ≡ grants j es + grants j fs
unfolding grants
grants-append j [] fs = omega arith
grants-append j (e ∷ es) fs = omega (arith, grants-append j es fs)

pub any-grants : (j : ℕ) (es : List Entitlement) → grants j es ≡ 0 → any (is_grant_of j) es ≡ false
unfolding grants any
any-grants j [] h = refl
any-grants j (e ∷ es) h = ground (arith, any-grants j es)

-- Deleting the grants of a purchase that has none deletes nothing.
pub keep-grants :
    (j : ℕ) (es : List Entitlement)
    → grants j es ≡ 0
    → keep (λ (e : Entitlement). not (is_grant_of j e)) es ≡ es
unfolding grants
keep-grants j [] h = refl
keep-grants j (e ∷ es) h = elim (Bool-cases (is_grant_of j e)) [
  | inl y ↦ absurd (omega (arith, rw y at h))
  | inr n ↦ rw n (ap (◌∷◌ e) (keep-grants j es (omega (arith, rw n at h))))
]
