-- ===== src/Store/Keys.antt =====
-- The checks of backend/store/wg.go on WireGuard keys and endpoints, which are lists of bytes.
use fips_exit_gate.Base.{
  ℕ, Bool, false, not, ◌&&◌, Option, none, some, List, [], ◌∷◌, ◌++◌, ltb, leb, ◌==◌, length,
}
use fips_exit_gate.Base.Sets.{contains}
use fips_exit_gate.Store.Authz.{any}

-- Go's library: `strings.TrimSpace`, base64's strict decoder, `net.SplitHostPort`, and `strconv.Atoi`
-- (a negative number, which is no port, reads 0).
pub record WgText : Type 0 where
  pub trim : List ℕ → List ℕ
  pub decode : List ℕ → Option (List ℕ)
  pub split_host_port : List ℕ → Option (List ℕ × List ℕ)
  pub atoi : List ℕ → Option ℕ

-- `strings.ContainsAny`.
unfoldable pub contains_any : List ℕ → List ℕ → Bool
unfolding any contains
contains_any s chars = any (contains chars) s

abbrev pub spaces : List ℕ
spaces = 32 ∷ 9 ∷ 13 ∷ 10 ∷ []

unfoldable pub is_32_bytes : Option (List ℕ) → Bool
is_32_bytes none = false
is_32_bytes (some b) = length b == 32

unfoldable pub is_port : Option ℕ → Bool
is_port none = false
is_port (some n) = ltb 0 n && ltb n 65536

module _ (t : WgText) where
  unfoldable pub valid_wg_key : List ℕ → Bool
  unfolding contains_any is_32_bytes
  valid_wg_key k = length k == 44 && not (contains_any k spaces) && is_32_bytes (t.decode k)

  unfoldable pub is_host_port : Option (List ℕ × List ℕ) → Bool
  unfolding is_port
  is_host_port none = false
  is_host_port (some (host, port)) = not (length host == 0) && is_port (t.atoi port)

  unfoldable pub valid_wg_endpoint : List ℕ → Bool
  unfolding contains_any is_host_port
  valid_wg_endpoint e =
      not (length e == 0)
      && leb (length e) 253
      && not (contains_any e (spaces ++ 0 ∷ []))
      && is_host_port (t.split_host_port e)
