-- ===== src/Examples/Proxy.antt =====
-- The proxies on a client that asks for 1.2.3.4, port 80, and then sends 71.
use fips_exit_gate.Base.{ℕ, ◌≡◌, refl, true, Option, some, List, [], ◌∷◌, arith}
use fips_exit_gate.Base.Sets.{contains}
use fips_exit_gate.Net.{Conn, read_full, write, byte_at, resume}
use fips_exit_gate.Dispatch.{NetText, IsNetText, Config, Target, accept, handle}
use fips_exit_gate.Dispatch.Forward.{IsTunnel, handle-IsTunnel}
use fips_exit_gate.Captive.{socks_accept}
use fips_exit_gate.Captive.Handshake.{accept-socks_accept}

-- Addresses written as their bytes.
abbrev raw : NetText
raw = record { text = λ b. b; to4 = λ b. some b; to16 = λ b. some b; lower = λ b. b }

abbrev raw-IsNetText : IsNetText raw
raw-IsNetText = record { text4 = λ b h n. refl; text16 = λ b h n. refl }

abbrev config : Config
config = record { clearnet_upstream = 7 ∷ []; tor_upstream = []; onion_suffix = 46 ∷ 111 ∷ [] }

abbrev client : Conn
client = record {
  incoming = 5 ∷ 1 ∷ 0 ∷ 5 ∷ 1 ∷ 0 ∷ 1 ∷ 1 ∷ 2 ∷ 3 ∷ 4 ∷ 0 ∷ 80 ∷ 71 ∷ [];
  sent = [];
  credit = 2;
}

abbrev upstream : Conn
upstream = record {
  incoming = 5 ∷ 0 ∷ 5 ∷ 0 ∷ 0 ∷ 1 ∷ 0 ∷ 0 ∷ 0 ∷ 0 ∷ 0 ∷ 0 ∷ 72 ∷ [];
  sent = [];
  credit = 2;
}

abbrev dial : List ℕ → Option Conn
dial up = some upstream

relays : (handle raw config dial client).tunnel ≡ true
unfolding handle accept read_full write byte_at resume contains
relays = refl

handle-IsTunnel_example : IsTunnel raw config dial client (handle raw config dial client)
handle-IsTunnel_example = handle-IsTunnel raw config dial raw-IsNetText client (ground arith) relays

abbrev target : Target
target = record { atyp = 1; host = 1 ∷ 2 ∷ 3 ∷ 4 ∷ []; port = 80 }

abbrev accepted : Conn
accepted = record { incoming = 71 ∷ []; sent = 5 ∷ 0 ∷ []; credit = 1 }

accepts : accept raw client ≡ (accepted, some target)
unfolding accept read_full write byte_at resume contains
accepts = refl

accept-socks_accept_example : socks_accept client ≡ (
  record {
    incoming = 71 ∷ [];
    sent = 5 ∷ 0 ∷ 5 ∷ 0 ∷ 0 ∷ 1 ∷ 0 ∷ 0 ∷ 0 ∷ 0 ∷ 0 ∷ 0 ∷ [];
    credit = 0;
  },
  some tt,
)
accept-socks_accept_example = accept-socks_accept raw client accepted target 0 accepts refl
