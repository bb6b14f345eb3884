-- ===== src/Npub/RoundTrip.antt =====
-- Keys and their npubs: encoding and decoding.
use mathlib.Core.List.{append_assoc}
use fips_exit_gate.Base.{
  ℕ, suc, ◌+◌, ◌-◌, ◌≤◌, ◌<◌, ◌≡◌, refl, ap, true, some, List, [], ◌∷◌, ◌++◌, map, arith, length,
  drop, length-append, take-append, All-append, le→not_ltb,
}
use fips_exit_gate.Base.Equality.{same_bytes_iff}
use fips_exit_gate.Base.Xor.{◌xor◌}
use fips_exit_gate.Npub.{
  Casing, ok, charset, char_at, hrp_expand, polymod, checked, split_at, checksum, bech32_encode,
  bech32_decode, npub_hrp, encode_npub, decode_npub, valid_x_only,
}
use fips_exit_gate.Npub.Regroup.{IsGroups, IsGroups-append}
use fips_exit_gate.Npub.Convert.{convert_bits-convert_bits}
use fips_exit_gate.Npub.Checksum.{polymod-checksum, checksum-IsGroups}
use fips_exit_gate.Npub.Text.{
  IsPlain, IsCasing, chars, chars-IsPlain, symbols-chars, last_index-split, length-chars,
}

map-append : (f : ℕ → ℕ) (xs ys : List ℕ) → map f xs ++ map f ys ≡ map f (xs ++ ys)
map-append f [] ys = refl
map-append f (x ∷ xs) ys = ap (◌∷◌ (f x)) (map-append f xs ys)

-- The groups of a text with their checksum.
sealed : List ℕ → List ℕ → List ℕ
sealed hrp groups =
    groups ++ checksum 6 (polymod ((hrp_expand hrp ++ groups) ++ 0 ∷ 0 ∷ 0 ∷ 0 ∷ 0 ∷ 0 ∷ []) xor 1)

bech32_encode-sealed :
    (hrp groups : List ℕ) → bech32_encode hrp groups ≡ hrp ++ b'1' ∷ chars (sealed hrp groups)
unfolding bech32_encode sealed
bech32_encode-sealed hrp groups = ap (λ s. hrp ++ b'1' ∷ s) (map-append (char_at charset) groups _)

checked-sealed : (hrp groups : List ℕ) → checked hrp (some (sealed hrp groups)) ≡ ok (hrp, groups)
unfolding checked sealed
checked-sealed hrp groups =
    let chk = polymod ((hrp_expand hrp ++ groups) ++ 0 ∷ 0 ∷ 0 ∷ 0 ∷ 0 ∷ 0 ∷ []) xor 1 in
    let tail = checksum 6 chk in
    let closed : polymod (hrp_expand hrp ++ (groups ++ tail)) ≡ 1 =
      rw (← append_assoc (hrp_expand hrp) groups tail)
        (polymod-checksum (hrp_expand hrp ++ groups)) in
    let size : length (groups ++ tail) - 6 ≡ length groups =
      rw (length-append groups tail) (unfold checksum in omega arith) in
    rw (closed, size, take-append groups tail) refl

sealed-long : (hrp groups : List ℕ) → 6 ≤ length (sealed hrp groups)
unfolding sealed checksum
sealed-long hrp groups = rw (length-append groups _) (omega arith)

drop-front : (xs : List ℕ) (y : ℕ) (ys : List ℕ) → drop (suc (length xs)) (xs ++ y ∷ ys) ≡ ys
drop-front [] y ys = refl
drop-front (x ∷ xs) y ys = drop-front xs y ys

-- A text in lower case and its groups are read back from what is encoded of them.
bech32_decode-bech32_encode :
    (t : Casing) (hrp groups : List ℕ)
    → IsCasing t
    → IsPlain hrp
    → 0 < length hrp
    → IsGroups 5 groups
    → bech32_decode t (bech32_encode hrp groups) ≡ ok (hrp, groups)
unfolding bech32_decode
bech32_decode-bech32_encode t hrp groups c p h g =
    let body = sealed hrp groups in
    let s = hrp ++ b'1' ∷ chars body in
    let gb : IsGroups 5 body =
      unfold sealed in IsGroups-append 5 groups _ g (checksum-IsGroups 6 _) in
    let plain : IsPlain s = All-append _ hrp (b'1' ∷ chars body) p (refl, chars-IsPlain body gb) in
    let kept = c.lower_plain s plain in
    let same = (same_bytes_iff s s).1 refl in
    let long : length hrp + 7 ≤ length s =
      omega
        (arith, length-append hrp (b'1' ∷ chars body), length-chars body, sealed-long hrp groups) in
    rw (bech32_encode-sealed hrp groups, kept, same, last_index-split hrp body gb)
      (unfold split_at in
        rw
          (
            le→not_ltb h,
            le→not_ltb long,
            take-append hrp (b'1' ∷ chars body),
            drop-front hrp (b'1') (chars body),
            symbols-chars body gb,
          )
          (checked-sealed hrp groups))

-- `EncodeNpub` and `DecodeNpub` are inverse: every valid key of 32 bytes is read back from its npub,
-- where `strings.ToLower` leaves ASCII text without capitals alone.
pub decode_npub-encode_npub :
    (t : Casing) (key : List ℕ)
    → IsCasing t
    → IsGroups 8 key
    → length key ≡ 32
    → valid_x_only key ≡ true
    → decode_npub t (encode_npub key) ≡ ok key
unfolding encode_npub decode_npub
decode_npub-encode_npub t key c g l v =
    let (groups, run, gg, back) = convert_bits-convert_bits key g in
    let read =
      bech32_decode-bech32_encode t npub_hrp groups c (refl, (refl, (refl, (refl, tt))))
        (omega arith) gg in
    let same = (same_bytes_iff npub_hrp npub_hrp).1 refl in rw (run, read, same, back, l, v) refl
