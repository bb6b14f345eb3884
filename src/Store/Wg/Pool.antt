-- ===== src/Store/Wg/Pool.antt =====
-- `offset4` and `slots` of backend/store/wg.go: the inner address of a peer.
use native.Mathlib.Nat.{
  mul-le-mul, add-mul, pow-le-pow_right, one-le-pow, two-pow-succ, div-lt_iff_lt-mul, mod-eq_of_lt,
}
use fips_exit_gate.Base.{
  ℕ, zero, suc, ◌+◌, ◌-◌, ◌*◌, ◌/◌, ◌%◌, ◌^◌, ◌≤◌, ◌<◌, ◌≡◌, refl, ◌∙◌, ap, arith, ltb,
  if◌then◌else◌,
}
use fips_exit_gate.Store.Wg.{Pool4, host_bits, slots, masked, offset4}

-- The room for slots in a pool of at least two host bits.
slots-room : (p : Pool4) → p.bits ≤ 30 → slots p + 3 ≤ 2 ^ (32 - p.bits)
unfolding slots host_bits
slots-room p b =
    let h = if ltb 24 (32 - p.bits) then 24 else 32 - p.bits in
    let two : 2 ≤ h = ground arith in
    let small : h ≤ 32 - p.bits = ground arith in
    let low : 2 ^ 2 ≤ 2 ^ h = pow-le-pow_right (omega arith) two in
    let high : 2 ^ h ≤ 2 ^ (32 - p.bits) = pow-le-pow_right (omega arith) small in
    ground (arith, low, high)

two-pow-add : (m n : ℕ) → 2 ^ m * 2 ^ n ≡ 2 ^ (m + n)
two-pow-add zero n =
    let same : 1 * 2 ^ n ≡ 2 ^ n = omega arith in
    let start : n ≡ zero + n = omega arith in same ∙ ap (λ k. 2 ^ k) start
two-pow-add (suc m) n =
    let shift : suc (m + n) ≡ suc m + n = omega arith in
    ap (λ k. k * 2 ^ n) (two-pow-succ m)
    ∙ add-mul (2 ^ m) (2 ^ m) (2 ^ n)
    ∙ omega (arith, two-pow-add m n, two-pow-succ (m + n))
    ∙ ap (λ k. 2 ^ k) shift

-- The pool lies within the IPv4 addresses.
masked-le : (p : Pool4) → p.bits ≤ 32 → p.addr < 2 ^ 32 → masked p + 2 ^ (32 - p.bits) ≤ 2 ^ 32
unfolding masked
masked-le p b a =
    let d = 2 ^ (32 - p.bits) in
    let sum : p.bits + (32 - p.bits) ≡ 32 = omega arith in
    let whole : 2 ^ p.bits * d ≡ 2 ^ 32 = two-pow-add p.bits (32 - p.bits) ∙ ap (λ k. 2 ^ k) sum in
    let pos : 0 < d = one-le-pow (32 - p.bits) 2 (omega arith) in
    let below : p.addr / d < 2 ^ p.bits = (div-lt_iff_lt-mul pos).1 (rw whole a) in
    let step : p.addr / d + 1 ≤ 2 ^ p.bits = omega (arith, below) in
    let itself : d ≤ d = omega arith in
    let row : (p.addr / d + 1) * d ≤ 2 ^ p.bits * d = mul-le-mul step itself in
    let split : (p.addr / d + 1) * d ≡ p.addr / d * d + 1 * d = add-mul (p.addr / d) 1 d in
    omega (arith, row, split, whole)

-- For a slot of a pool inside the address space that has at least two host bits: the peer's address
-- is its slot past the start of the pool, behind the network's and the gateway's, and before the
-- broadcast address. So peers in different slots have different addresses.
pub offset4_lem :
    (p : Pool4) (idx : ℕ)
    → p.bits ≤ 30
    → p.addr < 2 ^ 32
    → 2 ≤ idx
    → idx < 2 + slots p
    → (offset4 p idx ≡ masked p + idx)
      × (offset4 p 1 ≡ masked p + 1)
      × (offset4 p idx < masked p + 2 ^ (32 - p.bits) - 1)
unfolding offset4
offset4_lem p idx b a low high =
    let top = masked-le p (omega arith) a in
    let room = slots-room p b in
    let small : idx % 2 ^ 32 ≡ idx = mod-eq_of_lt (omega (arith, top, room)) in
    let fits : (masked p + idx) % 2 ^ 32 ≡ masked p + idx =
      mod-eq_of_lt (omega (arith, top, room)) in
    let gate : (masked p + 1) % 2 ^ 32 ≡ masked p + 1 = mod-eq_of_lt (omega (arith, top, room)) in
    (rw (small, fits) refl, gate, rw (small, fits) (omega (arith, top, room)))
