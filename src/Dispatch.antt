-- ===== src/Dispatch.antt =====
-- dispatch/socks.go, dispatch/route.go and `handle` of dispatch/main.go: the SOCKS5 proxy that sends
-- a client's CONNECT to the clearnet or the Tor upstream. Names and addresses are lists of bytes.
pub mod Forward
pub mod Framing
pub mod Exchange
pub mod Routing
use fips_exit_gate.Base.{
  ℕ, suc, ◌≡◌, ◌<◌, All, ◌+◌, ◌-◌, ◌*◌, ◌/◌, ◌%◌, Bool, true, false, not, ◌&&◌, Option, none, some,
  List, [], ◌∷◌, ◌++◌, ◌==◌, leb, if◌then◌else◌, length, drop, take,
}
use fips_exit_gate.Base.Equality.{same_bytes}
use fips_exit_gate.Base.Sets.{contains}
use fips_exit_gate.Net.{
  Conn, M, ◌>>=◌, ◌>>◌, return, fail, lift, guard, read_full, write, ignore, byte_at,
}

-- Go's library: `net.IP(b).String()`, `net.ParseIP(s).To4()` and `.To16()`, `strings.ToLower`.
pub record NetText : Type 0 where
  pub text : List ℕ → List ℕ
  pub to4 : List ℕ → Option (List ℕ)
  pub to16 : List ℕ → Option (List ℕ)
  pub lower : List ℕ → List ℕ

abbrev pub IsBytes : List ℕ → Type 0
IsBytes bs = All (λ b. b < 256) bs

-- The text of an address parses to its bytes.
pub record IsNetText (t : NetText) : Type 0 where
  pub text4 : (b : List ℕ) → IsBytes b → length b ≡ 4 → t.to4 (t.text b) ≡ some b
  pub text16 : (b : List ℕ) → IsBytes b → length b ≡ 16 → t.to16 (t.text b) ≡ some b

pub record Config : Type 0 where
  pub clearnet_upstream : List ℕ
  pub tor_upstream : List ℕ
  pub onion_suffix : List ℕ

pub record Target : Type 0 where
  pub atyp : ℕ
  pub host : List ℕ
  pub port : ℕ

unfoldable pub write_reply : ℕ → M (Unit {0})
write_reply rep = write (5 ∷ rep ∷ 0 ∷ 1 ∷ 0 ∷ 0 ∷ 0 ∷ 0 ∷ 0 ∷ 0 ∷ [])

-- The refusals, `_ = writeReply(rw, rep)` and an error.
unfoldable pub refuse : {A : Type 0} → ℕ → M A
unfolding write_reply
refuse rep = do (λ c. ignore (write_reply rep c)); fail

unfoldable pub choose_method : Bool → M (Unit {0})
choose_method true = write (5 ∷ 0 ∷ [])
choose_method false = do (λ c. ignore (write (5 ∷ 255 ∷ []) c)); fail

unfoldable pub negotiate : M (Unit {0})
unfolding choose_method
negotiate = do
  hdr ← read_full 2
  guard (byte_at 0 hdr == 5)
  methods ← read_full (byte_at 1 hdr)
  choose_method (contains methods 0)

-- `if h[1] != cmdConnect`.
unfoldable pub connect_only : ℕ → Target → M Target
unfolding refuse
connect_only cmd g = if cmd == 1 then return g else refuse 7

unfoldable pub framed : Target → Option (List ℕ) → Option (List ℕ)
framed g none = none
framed g (some a) = some (5 ∷ 1 ∷ 0 ∷ g.atyp ∷ (a ++ ((g.port / 256) % 256) ∷ (g.port % 256) ∷ []))

module _ (t : NetText) where
  unfoldable pub read_host : ℕ → M (List ℕ)
  unfolding refuse
  read_host atyp =
      if atyp == 1
      then (do b ← read_full 4; return (t.text b))
      else if atyp == 4
      then (do b ← read_full 16; return (t.text b))
      else if atyp == 3
      then (do lb ← read_full 1; read_full (byte_at 0 lb))
      else refuse 8

  unfoldable pub read_connect : M Target
  unfolding read_host connect_only
  read_connect = do
    h ← read_full 4
    guard (byte_at 0 h == 5)
    host ← read_host (byte_at 3 h)
    pb ← read_full 2
    connect_only (byte_at 1 h)
        (record { atyp = byte_at 3 h; host = host; port = byte_at 0 pb * 256 + byte_at 1 pb })

  -- The bytes of the address in a request.
  unfoldable pub address_bytes : Target → Option (List ℕ)
  address_bytes g =
      if g.atyp == 3
      then some ((length g.host % 256) ∷ g.host)
      else if g.atyp == 1
      then t.to4 g.host
      else if g.atyp == 4
      then t.to16 g.host
      else some []

  unfoldable pub request_bytes : Target → Option (List ℕ)
  unfolding address_bytes framed
  request_bytes g = framed g (address_bytes g)

-- `readReply`: the whole message of the upstream.
unfoldable pub reply_rest : List ℕ → M (List ℕ)
reply_rest h =
    if byte_at 3 h == 1
    then (do rest ← read_full 6; return (h ++ rest))
    else if byte_at 3 h == 4
    then (do rest ← read_full 18; return (h ++ rest))
    else if byte_at 3 h == 3
    then (do lb ← read_full 1; rest ← read_full (byte_at 0 lb + 2); return (h ++ lb ++ rest))
    else fail

unfoldable pub read_reply : M (List ℕ)
unfolding reply_rest
read_reply = do h ← read_full 4; reply_rest h

module _ (t : NetText) where
  -- `dialThrough` on the connection that was dialled.
  unfoldable pub connect_through : Target → M (List ℕ)
  unfolding request_bytes read_reply
  connect_through g = do
    write (5 ∷ 1 ∷ 0 ∷ [])
    sel ← read_full 2
    guard (byte_at 0 sel == 5 && byte_at 1 sel == 0)
    req ← lift (request_bytes t g)
    write req
    read_reply

-- `strings.TrimSuffix(host, ".")` and `strings.HasSuffix`.
unfoldable pub trim_dot : List ℕ → List ℕ
trim_dot [] = []
trim_dot (b ∷ []) = if b == 46 then [] else b ∷ []
trim_dot (b ∷ c ∷ bs) = b ∷ trim_dot (c ∷ bs)

unfoldable pub has_suffix : List ℕ → List ℕ → Bool
unfolding same_bytes
has_suffix s suffix =
    leb (length suffix) (length s) && same_bytes (drop (length s - length suffix) s) suffix

module _ (t : NetText) where
  unfoldable pub is_onion : List ℕ → List ℕ → Bool
  unfolding has_suffix trim_dot
  is_onion host suffix = has_suffix (t.lower (trim_dot host)) suffix

  -- The upstream, and a reply code.
  unfoldable pub pick_upstream : List ℕ → Bool → Config → List ℕ × ℕ
  unfolding is_onion
  pick_upstream host is_domain cfg =
      if is_domain && is_onion host cfg.onion_suffix
      then (if length cfg.tor_upstream == 0 then ([], 2) else (cfg.tor_upstream, 0))
      else (cfg.clearnet_upstream, 0)

  unfoldable pub accept : M Target
  unfolding negotiate read_connect
  accept = do negotiate; read_connect t

-- What `handle` leaves: the two connections, the upstream that was dialled, and whether it goes on
-- to `relay`.
pub record Session : Type 0 where
  pub client : Conn
  pub dialled : Option (List ℕ)
  pub upstream : Option Conn
  pub tunnel : Bool

module _ (t : NetText) (cfg : Config) (dial : List ℕ → Option Conn) where
  unfoldable pub relayed : List ℕ → Conn → List ℕ → Conn × Option (Unit {0}) → Session
  relayed up u reply (c, none) = record {
    client = c;
    dialled = some up;
    upstream = some u;
    tunnel = false;
  }
  relayed up u reply (c, some ok) = record {
    client = c;
    dialled = some up;
    upstream = some u;
    tunnel = byte_at 1 reply == 0;
  }

  unfoldable pub relay_reply : List ℕ → Conn → Conn × Option (List ℕ) → Session
  unfolding relayed write_reply
  relay_reply up c (u, none) = record {
    client = (write_reply 4 c).0;
    dialled = some up;
    upstream = some u;
    tunnel = false;
  }
  relay_reply up c (u, some reply) = relayed up u reply (write reply c)

  unfoldable pub on_dial : Target → List ℕ → Conn → Option Conn → Session
  unfolding relay_reply connect_through
  on_dial g up c none = record {
    client = (write_reply 4 c).0;
    dialled = some up;
    upstream = none;
    tunnel = false;
  }
  on_dial g up c (some u) = relay_reply up c (connect_through t g u)

  unfoldable pub route : Target → Conn → List ℕ × ℕ → Session
  unfolding on_dial write_reply
  route g c (up, rep) = if rep == 0 then on_dial g up c (dial up) else record {
    client = (write_reply rep c).0;
    dialled = none;
    upstream = none;
    tunnel = false;
  }

  unfoldable pub on_request : Conn × Option Target → Session
  unfolding route pick_upstream
  on_request (c, none) = record { client = c; dialled = none; upstream = none; tunnel = false }
  on_request (c, some g) = route g c (pick_upstream t g.host (g.atyp == 3) cfg)

  unfoldable pub handle : Conn → Session
  unfolding on_request accept
  handle c = on_request (accept t c)
