-- ===== src/Base/Xor.antt =====
-- Exclusive or of native numbers: its law for the lowest digit, and what follows for shifts.
use Prim.Native.Nat.{digits, differ, bit_xor, bit_xor-bitwise}
use native.Mathlib.Nat.{pow-suc}
use fips_exit_gate.Base.{
  ℕ, zero, suc, ◌+◌, ◌*◌, ◌/◌, ◌%◌, ◌^◌, ◌≤◌, ◌<◌, ◌≡◌, refl, sym, ap, ◌∙◌, arith,
}

infixl 60 ◌xor◌
abbrev pub ◌xor◌ : ℕ → ℕ → ℕ
a xor b = bit_xor a b

-- The recursion that the native operation stands for takes as many rounds as it is given; any two
-- counts that reach the first number agree.
abbrev rounds : ℕ → ℕ → ℕ → ℕ
rounds k x y = digits (λ d. d) differ k x y

rounds_at_zero : (k y : ℕ) → rounds k 0 y ≡ y
rounds_at_zero zero y = refl
rounds_at_zero (suc k) y = refl

rounds_enough : (k l x y : ℕ) → x ≤ k → x ≤ l → rounds k x y ≡ rounds l x y
rounds_enough k l zero y hk hl = rounds_at_zero k y ∙ sym (rounds_at_zero l y)
rounds_enough zero l (suc x) y hk hl = absurd (omega arith)
rounds_enough (suc k) zero (suc x) y hk hl = absurd (omega arith)
rounds_enough (suc k) (suc l) (suc x) y hk hl =
    let above = rounds_enough k l (suc x / 2) (y / 2) (omega arith) (omega arith) in
    ap (λ (q : ℕ). q * 2 + differ (suc x % 2) (y % 2)) above

pub zero-xor : (b : ℕ) → 0 xor b ≡ b
zero-xor b = bit_xor-bitwise 0 b

differ_parity : (x y : ℕ) → x < 2 → y < 2 → differ x y ≡ (x + y) % 2
differ_parity zero y h k = omega arith
differ_parity (suc x) zero h k = omega arith
differ_parity (suc x) (suc y) h k =
    let p : x ≡ 0 = omega arith in let q : y ≡ 0 = omega arith in rw (p, q) refl

-- The lowest digit, and the digits above it.
xor_step : (a b : ℕ) → a xor b ≡ (a / 2 xor b / 2) * 2 + (a % 2 + b % 2) % 2
xor_step zero b = omega (arith, zero-xor b, zero-xor (b / 2))
xor_step (suc a) b = omega (
  arith,
  bit_xor-bitwise (suc a) b,
  bit_xor-bitwise (suc a / 2) (b / 2),
  rounds_enough a (suc a / 2) (suc a / 2) (b / 2) (omega arith) (omega arith),
  differ_parity (suc a % 2) (b % 2) (omega arith) (omega arith),
)

xor-half : (a b : ℕ) → (a xor b) / 2 ≡ a / 2 xor b / 2
xor-half a b = omega (arith, xor_step a b)

xor-parity : (a b : ℕ) → (a xor b) % 2 ≡ (a % 2 + b % 2) % 2
xor-parity a b = omega (arith, xor_step a b)

xor_comm_fuel : (n a b : ℕ) → a ≤ n → b ≤ n → a xor b ≡ b xor a
xor_comm_fuel zero zero zero p q = refl
xor_comm_fuel zero (suc a) b p q = absurd (omega arith)
xor_comm_fuel zero zero (suc b) p q = absurd (omega arith)
xor_comm_fuel (suc n) a b p q =
    omega (
      arith,
      xor_step a b,
      xor_step b a,
      xor_comm_fuel n (a / 2) (b / 2) (omega arith) (omega arith),
    )

pub xor_comm : (a b : ℕ) → a xor b ≡ b xor a
xor_comm a b = xor_comm_fuel (a + b) a b (omega arith) (omega arith)

xor_self_fuel : (n a : ℕ) → a ≤ n → a xor a ≡ 0
xor_self_fuel zero zero p = refl
xor_self_fuel zero (suc a) p = absurd (omega arith)
xor_self_fuel (suc n) a p = omega (arith, xor_step a a, xor_self_fuel n (a / 2) (omega arith))

pub xor_self : (a : ℕ) → a xor a ≡ 0
xor_self a = xor_self_fuel a a (omega arith)

xor_assoc_fuel : (n a b c : ℕ) → a ≤ n → b ≤ n → c ≤ n → (a xor b) xor c ≡ a xor (b xor c)
xor_assoc_fuel zero a b c p q r =
    let a0 : a ≡ 0 = omega arith in
    let b0 : b ≡ 0 = omega arith in let c0 : c ≡ 0 = omega arith in rw (a0, b0, c0) refl
xor_assoc_fuel (suc n) a b c p q r =
    let ih = xor_assoc_fuel n (a / 2) (b / 2) (c / 2) (omega arith) (omega arith) (omega arith) in
    let front : (a xor b) xor c ≡ ((a / 2 xor b / 2) xor c / 2) * 2 + (a % 2 + b % 2 + c % 2) % 2 =
      rw (← xor-half a b) (omega (arith, xor_step (a xor b) c, xor-parity a b)) in
    let back : a xor (b xor c) ≡ (a / 2 xor (b / 2 xor c / 2)) * 2 + (a % 2 + b % 2 + c % 2) % 2 =
      rw (← xor-half b c) (omega (arith, xor_step a (b xor c), xor-parity b c)) in
    omega (arith, front, back, ih)

pub xor_assoc : (a b c : ℕ) → (a xor b) xor c ≡ a xor (b xor c)
xor_assoc a b c = xor_assoc_fuel (a + b + c) a b c (omega arith) (omega arith) (omega arith)

pub xor-zero : (a : ℕ) → a xor 0 ≡ a
xor-zero a = xor_comm a 0 ∙ zero-xor a

pub xor_cancel : (a b : ℕ) → a xor (a xor b) ≡ b
xor_cancel a b = sym (xor_assoc a a b) ∙ ap (λ x. x xor b) (xor_self a) ∙ zero-xor b

pub xor_cancel_right : (a b : ℕ) → (a xor b) xor b ≡ a
xor_cancel_right a b = xor_assoc a b b ∙ ap (λ x. a xor x) (xor_self b) ∙ xor-zero a

pub xor-lt : (k a b : ℕ) → a < 2 ^ k → b < 2 ^ k → a xor b < 2 ^ k
xor-lt zero a b p q =
    let a0 : a ≡ 0 = omega arith in let b0 : b ≡ 0 = omega arith in rw (a0, b0) (omega arith)
xor-lt (suc k) a b p q = omega (
  arith,
  xor_step a b,
  pow-suc 2 k,
  xor-lt k (a / 2) (b / 2) (omega (arith, pow-suc 2 k)) (omega (arith, pow-suc 2 k)),
)

double-pow : (q k : ℕ) → q * 2 ^ suc k ≡ 2 * (q * 2 ^ k)
double-pow q k = omega (arith, ap (λ (t : ℕ). q * t) (pow-suc 2 k))

-- Exclusive or works on the digits above the lowest `k` and on those apart.
pub xor_fields :
    (k p q r s : ℕ)
    → r < 2 ^ k
    → s < 2 ^ k
    → (p * 2 ^ k + r) xor (q * 2 ^ k + s) ≡ (p xor q) * 2 ^ k + (r xor s)
xor_fields zero p q r s hr hs =
    let r0 : r ≡ 0 = omega arith in
    let s0 : s ≡ 0 = omega arith in
    let p' : p * 1 + 0 ≡ p = omega arith in
    let q' : q * 1 + 0 ≡ q = omega arith in rw (r0, s0, p', q') (omega (arith, zero-xor 0))
xor_fields (suc k) p q r s hr hs =
    let ih =
      xor_fields k p q (r / 2) (s / 2) (omega (arith, pow-suc 2 k)) (omega (arith, pow-suc 2 k)) in
    let a : (p * 2 ^ suc k + r) / 2 ≡ p * 2 ^ k + r / 2 = omega (arith, double-pow p k) in
    let b : (q * 2 ^ suc k + s) / 2 ≡ q * 2 ^ k + s / 2 = omega (arith, double-pow q k) in
    let step = xor_step (p * 2 ^ suc k + r) (q * 2 ^ suc k + s) in
    let halves = rw (a, b) at step in
    omega (arith, halves, ih, double-pow p k, double-pow q k, double-pow (p xor q) k, xor_step r s)
