-- ===== src/Npub.antt =====
-- pkg/fipsaddr/npub.go: the text form of a node's public key, which is Bech32 with a checksum over
-- 30 bits. Texts, keys and groups of bits are lists of bytes.
pub mod Regroup
pub mod Convert
pub mod Checksum
pub mod Undo
pub mod Text
pub mod RoundTrip
pub mod Accepted
pub mod Slips
use Prim.Native.Nat.{bit_xor}
use fips_exit_gate.Base.{
  ℕ, zero, suc, ◌+◌, ◌-◌, ◌*◌, ◌/◌, ◌%◌, ◌^◌, Bool, true, false, not, ◌&&◌, ◌||◌, Option, none,
  some, List, [], ◌∷◌, ◌++◌, map, ltb, leb, ◌==◌, if◌then◌else◌, length, take, drop,
}
use fips_exit_gate.Base.Equality.{same_bytes}

pub data NpubError : Type 0 where
  mixed_case malformed bad_character bad_checksum not_npub : NpubError
  bad_group bad_padding bad_length invalid_pubkey wrong_address : NpubError

-- A value, or the error that is returned with none.
pub data Result (A : Type 0) : Type 0 where
  err : NpubError → Result A
  ok : A → Result A

-- `if err != nil` after a call returns its error.
infixl 5 ◌>>=◌ ◌>>◌
abbrev pub ◌>>=◌ : {A B : Type 0} → Result A → (A → Result B) → Result B
err e >>= next = err e
ok a >>= next = next a

abbrev pub ◌>>◌ : {B : Type 0} → Result (Unit {0}) → Result B → Result B
first >> next = first >>= λ _. next

abbrev pub ensure : Bool → NpubError → Result (Unit {0})
ensure met e = if met then ok tt else err e

-- `for bits >= toBits`, which takes at most `bits` rounds. The mask of `toBits` ones is a remainder.
unfoldable pub emit : ℕ → ℕ → ℕ → ℕ → List ℕ → ℕ × List ℕ
emit to zero acc bits out = (bits, out)
emit to (suc rounds) acc bits out =
    let more = emit to rounds acc (bits - to) (out ++ (acc / 2 ^ (bits - to) % 2 ^ to) ∷ []) in
    if leb to bits then more else (bits, out)

-- The loop over the groups. The low bits of the shifted accumulator are clear: `|` adds.
unfoldable pub regroup : ℕ → ℕ → List ℕ → ℕ → ℕ × List ℕ → Option (ℕ × ℕ × List ℕ)
unfolding emit
regroup from to [] acc (bits, out) = some (acc, bits, out)
regroup from to (v ∷ vs) acc (bits, out) =
    let acc' = acc * 2 ^ from % 2 ^ 32 + v in
    let rest = regroup from to vs acc' (emit to (bits + from) acc' (bits + from) out) in
    if v / 2 ^ from == 0 then rest else none

-- `acc<<(toBits-bits)&maxv`.
unfoldable pub last_group : ℕ → ℕ → ℕ → ℕ
last_group to acc bits = acc * 2 ^ (to - bits) % 2 ^ 32 % 2 ^ to

unfoldable pub finish : ℕ → ℕ → Bool → Option (ℕ × ℕ × List ℕ) → Result (List ℕ)
unfolding last_group
finish from to pad none = err bad_group
finish from to true (some (acc, bits, out)) =
    ok (if ltb 0 bits then out ++ last_group to acc bits ∷ [] else out)
finish from to false (some (acc, bits, out)) =
    if leb from bits || not (last_group to acc bits == 0) then err bad_padding else ok out

-- `convertBits`.
unfoldable pub convert_bits : List ℕ → ℕ → ℕ → Bool → Result (List ℕ)
unfolding regroup finish
convert_bits groups from to pad = finish from to pad (regroup from to groups 0 (0, []))

-- `gen`.
abbrev pub generator : List ℕ
generator = 0x3b6a57b2 ∷ 0x26508e6d ∷ 0x1ea119fa ∷ 0x3d4233dd ∷ 0x2a1462b3 ∷ []

unfoldable pub add_generators : ℕ → ℕ → List ℕ → ℕ → ℕ
add_generators b i [] chk = chk
add_generators b i (g ∷ gs) chk =
    add_generators b (suc i) gs (if b / 2 ^ i % 2 == 1 then bit_xor chk g else chk)

unfoldable pub polymod_step : ℕ → ℕ → ℕ
unfolding add_generators
polymod_step chk v =
    add_generators (chk / 2 ^ 25) 0 generator (bit_xor (chk % 2 ^ 25 * 2 ^ 5 % 2 ^ 32) v)

unfoldable pub polymod_from : ℕ → List ℕ → ℕ
unfolding polymod_step
polymod_from chk [] = chk
polymod_from chk (v ∷ vs) = polymod_from (polymod_step chk v) vs

-- `bech32Polymod`.
unfoldable pub polymod : List ℕ → ℕ
unfolding polymod_from
polymod values = polymod_from 1 values

unfoldable pub hrp_expand : List ℕ → List ℕ
hrp_expand hrp = map (λ c. c / 2 ^ 5) hrp ++ 0 ∷ map (λ c. c % 2 ^ 5) hrp

abbrev pub charset : List ℕ
charset =
    b'q' ∷ b'p' ∷ b'z' ∷ b'r' ∷ b'y' ∷ b'9' ∷ b'x' ∷ b'8' ∷ b'g' ∷ b'f' ∷ b'2' ∷ b't' ∷ b'v' ∷ b'd'
    ∷ b'w' ∷ b'0' ∷ b's' ∷ b'3' ∷ b'j' ∷ b'n' ∷ b'5' ∷ b'4' ∷ b'k' ∷ b'h' ∷ b'c' ∷ b'e' ∷ b'6'
    ∷ b'm' ∷ b'u' ∷ b'a' ∷ b'7' ∷ b'l' ∷ []

-- `bech32Charset[d]`, at a group below 32: the code panics at any other.
abbrev pub char_at : List ℕ → ℕ → ℕ
char_at [] d = 0
char_at (c ∷ cs) zero = c
char_at (c ∷ cs) (suc d) = char_at cs d

unfoldable pub next_index : Option ℕ → Option ℕ
next_index none = none
next_index (some i) = some (suc i)

-- `strings.IndexByte`, `none` for -1.
unfoldable pub index_byte : List ℕ → ℕ → Option ℕ
unfolding next_index
index_byte [] c = none
index_byte (b ∷ bs) c = if b == c then some 0 else next_index (index_byte bs c)

unfoldable pub or_first : Bool → Option ℕ → Option ℕ
or_first first (some i) = some (suc i)
or_first first none = if first then some 0 else none

-- `strings.LastIndexByte`, `none` for -1.
unfoldable pub last_index : List ℕ → ℕ → Option ℕ
unfolding or_first
last_index [] c = none
last_index (b ∷ bs) c = or_first (b == c) (last_index bs c)

unfoldable pub with_symbol : Option ℕ → Option (List ℕ) → Option (List ℕ)
with_symbol (some i) (some is) = some (i ∷ is)
with_symbol (some i) none = none
with_symbol none is = none

unfoldable pub symbols : List ℕ → Option (List ℕ)
unfolding with_symbol index_byte
symbols [] = some []
symbols (c ∷ cs) = with_symbol (index_byte charset c) (symbols cs)

-- The last part of `bech32Decode`, from the loop over the characters on.
unfoldable pub checked : List ℕ → Option (List ℕ) → Result (List ℕ × List ℕ)
unfolding polymod hrp_expand
checked hrp none = err bad_character
checked hrp (some groups) =
    if polymod (hrp_expand hrp ++ groups) == 1
    then ok (hrp, take (length groups - 6) groups)
    else err bad_checksum

unfoldable pub split_at : List ℕ → Option ℕ → Result (List ℕ × List ℕ)
unfolding checked symbols
split_at s none = err malformed
split_at s (some pos) =
    if ltb pos 1 || ltb (length s) (pos + 7)
    then err malformed
    else checked (take pos s) (symbols (drop (suc pos) s))

-- `polymod>>uint(5*(5-i))&31`, for the last so many of the six groups.
unfoldable pub checksum : ℕ → ℕ → List ℕ
checksum zero chk = []
checksum (suc n) chk = (chk / 2 ^ (5 * n) % 2 ^ 5) ∷ checksum n chk

unfoldable pub bech32_encode : List ℕ → List ℕ → List ℕ
unfolding polymod hrp_expand checksum
bech32_encode hrp groups =
    let chk = bit_xor (polymod ((hrp_expand hrp ++ groups) ++ 0 ∷ 0 ∷ 0 ∷ 0 ∷ 0 ∷ 0 ∷ [])) 1 in
    hrp ++ b'1' ∷ (map (char_at charset) groups ++ map (char_at charset) (checksum 6 chk))

-- `secpP` and `secpPExp`.
abbrev pub secp_p : ℕ
secp_p = 0xfffffffffffffffffffffffffffffffffffffffffffffffffffffffefffffc2f

abbrev pub secp_p_exp : ℕ
secp_p_exp = (secp_p + 1) / 2 ^ 2

-- `SetBytes`: the number of big-endian digits of `w` bits.
unfoldable pub digits_value : ℕ → ℕ → List ℕ → ℕ
digits_value w n [] = n
digits_value w n (d ∷ ds) = digits_value w (n * 2 ^ w + d) ds

-- `Exp` of `math/big`, at an exponent below 2 to the first argument.
unfoldable pub mod_exp : ℕ → ℕ → ℕ → ℕ → ℕ
mod_exp zero x e m = 1 % m
mod_exp (suc bits) x e m =
    let root = mod_exp bits (x * x % m) (e / 2) m in if e % 2 == 1 then root * x % m else root

-- `validXOnly`.
unfoldable pub valid_x_only : List ℕ → Bool
unfolding digits_value mod_exp
valid_x_only key =
    let x = digits_value 8 0 key in
    let rhs = (mod_exp 256 x 3 secp_p + 7) % secp_p in
    let y = mod_exp 256 rhs secp_p_exp secp_p in ltb x secp_p && y * y % secp_p == rhs

-- `"npub"`.
abbrev pub npub_hrp : List ℕ
npub_hrp = b'n' ∷ b'p' ∷ b'u' ∷ b'b' ∷ []

-- An error of `convertBits` leaves no groups.
unfoldable pub groups_or_none : Result (List ℕ) → List ℕ
groups_or_none (ok groups) = groups
groups_or_none (err e) = []

unfoldable pub encode_npub : List ℕ → List ℕ
unfolding groups_or_none convert_bits bech32_encode
encode_npub key = bech32_encode npub_hrp (groups_or_none (convert_bits key 8 5 true))

-- Go's `strings.ToLower` and `strings.ToUpper`, on UTF-8.
pub record Casing : Type 0 where
  pub to_lower : List ℕ → List ℕ
  pub to_upper : List ℕ → List ℕ

module _ (t : Casing) where
  unfoldable pub bech32_decode : List ℕ → Result (List ℕ × List ℕ)
  unfolding split_at last_index
  bech32_decode s =
      let lower = t.to_lower s in
      if not (same_bytes lower s) && not (same_bytes (t.to_upper s) s)
      then err mixed_case
      else split_at lower (last_index lower b'1')

  unfoldable pub decode_npub : List ℕ → Result (List ℕ)
  unfolding bech32_decode convert_bits valid_x_only
  decode_npub npub = do
    (hrp, groups) ← bech32_decode npub
    ensure (same_bytes hrp npub_hrp) not_npub
    payload ← convert_bits groups 5 8 false
    ensure (length payload == 32) bad_length
    ensure (valid_x_only payload) invalid_pubkey
    ok payload
