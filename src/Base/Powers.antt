-- ===== src/Base/Powers.antt =====
-- Remainders by products, and by powers of two at a variable exponent.
use native.Mathlib.Nat.{
  pow-suc, one-le-pow, div-add-mod, mul-add-mod_self_left, mod-eq_of_lt, mod-lt, mul-div_cancel,
  mul-mod_left, add-mul, mul_assoc, mul_comm, mul-add, mod-mod, mul-add-mod_self_right,
  mul-le-mul_right,
}
use fips_exit_gate.Base.{ℕ, zero, suc, ◌+◌, ◌-◌, ◌*◌, ◌/◌, ◌%◌, ◌^◌, ◌≤◌, ◌<◌, ◌≡◌, ap, ◌∙◌, arith}

pub pow-add : (a b : ℕ) → 2 ^ (a + b) ≡ 2 ^ a * 2 ^ b
pow-add zero b = rw (let e : 0 + b ≡ b = omega arith in e) (omega arith)
pow-add (suc a) b =
    let e : suc a + b ≡ suc (a + b) = omega arith in
    rw e (grind (arith, pow-suc 2 (a + b), pow-suc 2 a, pow-add a b, mul_assoc 2 (2 ^ a) (2 ^ b)))

pub pow-sub : (a b : ℕ) → a ≤ b → 2 ^ b ≡ 2 ^ a * 2 ^ (b - a)
pow-sub a b h = let e : b ≡ a + (b - a) = omega arith in ap (λ x. 2 ^ x) e ∙ pow-add a (b - a)

-- The lowest part of a number, and the part above it, make the remainder by a product.
pub mod-mul : (x m n : ℕ) → 0 < m → 0 < n → x % (m * n) ≡ x / m % n * m + x % m
mod-mul x m n hm hn =
    let q = x / m in
    let low : m * q + x % m ≡ x = div-add-mod x m in
    let high : n * (q / n) + q % n ≡ q = div-add-mod q n in
    let whole : x ≡ m * n * (q / n) + (q % n * m + x % m) = omega (
      arith,
      low,
      ap (λ (t : ℕ). m * t) high,
      mul-add m (n * (q / n)) (q % n),
      mul_assoc m n (q / n),
      mul_comm m (q % n),
    ) in
    let small : q % n < n = mod-lt q hn in
    let rest : x % m < m = mod-lt x hm in
    let row : (q % n + 1) * m ≤ n * m = mul-le-mul_right m (omega arith) in
    let fits : q % n * m + x % m < m * n =
      omega (arith, row, rest, add-mul (q % n) 1 m, mul_comm m n) in
    let e : x % (m * n) ≡ (m * n * (q / n) + (q % n * m + x % m)) % (m * n) =
      ap (λ (y : ℕ). y % (m * n)) whole in
    e ∙ mul-add-mod_self_left (m * n) (q / n) (q % n * m + x % m) ∙ mod-eq_of_lt fits

-- A multiple's remainder.
pub mul-mod-mul : (x m n : ℕ) → 0 < m → 0 < n → x * m % (m * n) ≡ x % n * m
mul-mod-mul x m n hm hn =
    let e = mod-mul (x * m) m n hm hn in
    e ∙ rw (mul-div_cancel x hm, mul-mod_left x m) (omega arith)

pub mod-mod-pow : (x a b : ℕ) → a ≤ b → x % 2 ^ b % 2 ^ a ≡ x % 2 ^ a
mod-mod-pow x a b h =
    let e =
      mod-mul x (2 ^ a) (2 ^ (b - a)) (one-le-pow a 2 (omega arith))
        (one-le-pow (b - a) 2 (omega arith)) in
    rw (pow-sub a b h, e)
      (mul-add-mod_self_right (x / 2 ^ a % 2 ^ (b - a)) (2 ^ a) (x % 2 ^ a) ∙ mod-mod x (2 ^ a))
