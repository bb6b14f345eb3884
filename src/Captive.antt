-- ===== src/Captive.antt =====
-- captive/socks.go: the SOCKS5 handshake of the captive portal, which accepts a CONNECT without
-- serving it.
pub mod Handshake
pub mod Token
use fips_exit_gate.Base.{ℕ, ◌+◌, Bool, List, [], ◌∷◌, ◌==◌, if◌then◌else◌}
use fips_exit_gate.Net.{M, ◌>>=◌, ◌>>◌, return, fail, guard, read_full, write, ignore, byte_at}

unfoldable pub write_socks_reply : ℕ → M (Unit {0})
write_socks_reply rep = write (5 ∷ rep ∷ 0 ∷ 1 ∷ 0 ∷ 0 ∷ 0 ∷ 0 ∷ 0 ∷ 0 ∷ [])

unfoldable pub address_size : ℕ → M ℕ
address_size atyp =
    if atyp == 1
    then return 4
    else if atyp == 4
    then return 16
    else if atyp == 3
    then (do lb ← read_full 1; return (byte_at 0 lb))
    else fail

unfoldable pub discard_addr_port : ℕ → M (List ℕ)
unfolding address_size
discard_addr_port atyp = do n ← address_size atyp; read_full (n + 2)

unfoldable pub answer : ℕ → M (Unit {0})
unfolding write_socks_reply
answer cmd =
    if cmd == 1 then write_socks_reply 0 else (do (λ c. ignore (write_socks_reply 7 c)); fail)

unfoldable pub socks_accept : M (Unit {0})
unfolding discard_addr_port answer
socks_accept = do
  hdr ← read_full 2
  guard (byte_at 0 hdr == 5)
  methods ← read_full (byte_at 1 hdr)
  write (5 ∷ 0 ∷ [])
  req ← read_full 4
  guard (byte_at 0 req == 5)
  address ← discard_addr_port (byte_at 3 req)
  answer (byte_at 1 req)
