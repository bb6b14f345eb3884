-- ===== src/Store/Wg/Table.antt =====
-- `WgPeerTable` of backend/store/wg.go and `wgPeers` of backend/api.go: what the agents are told of
-- the peers. The order of the rows is left out.
use fips_exit_gate.Base.{
  ℕ, ◌+◌, ◌%◌, ◌^◌, ◌<◌, ◌≡◌, Option, none, some, List, [], ◌∷◌, if◌then◌else◌,
}
use fips_exit_gate.Base.Equality.{same_bytes}
use fips_exit_gate.Store.Wg.{Pool4, WgPeer, offset4}
use fips_exit_gate.Agent.Wg.{Text, WgPeerInfo, WgPeersResponse}

-- An IPv6 pool by its masked address: the first 12 bytes and the last 4 bytes.
pub record Pool6 : Type 0 where
  pub high : ℕ
  pub low : ℕ

-- The last 4 bytes that `offset6` gives.
unfoldable pub offset6 : Pool6 → ℕ → ℕ
offset6 p n = (p.low + n % 2 ^ 32) % 2 ^ 32

-- `netip.Addr.String` on either kind of address, with its prefix length; and the hash of the rows.
pub record AddrText : Type 0 where
  pub text4 : ℕ → Text
  pub text6 : ℕ → ℕ → Text
  pub digest : List WgPeerInfo → Text

-- Different addresses have different texts.
pub record IsAddrText (t : AddrText) : Type 0 where
  pub injective4 : (a b : ℕ) → a < 2 ^ 32 → b < 2 ^ 32 → t.text4 a ≡ t.text4 b → a ≡ b
  pub injective6 : (h a b : ℕ) → a < 2 ^ 32 → b < 2 ^ 32 → t.text6 h a ≡ t.text6 h b → a ≡ b
  pub apart : (a h b : ℕ) → t.text4 a ≡ t.text6 h b → ⊥

module _ (t : AddrText) (pool4 : Pool4) (pool6 : Pool6) where
  unfoldable pub peer_info : WgPeer → WgPeerInfo
  unfolding offset4 offset6
  peer_info p = record {
    pubkey = p.pubkey;
    ip4 = t.text4 (offset4 pool4 p.idx);
    ip6 = t.text6 pool6.high (offset6 pool6 p.idx);
  }

  unfoldable pub peer_table : List WgPeer → List WgPeerInfo
  unfolding peer_info
  peer_table [] = []
  peer_table (p ∷ ps) = peer_info p ∷ peer_table ps

  unfoldable pub wg_response : List WgPeer → WgPeersResponse
  unfolding peer_table
  wg_response ps = record { etag = t.digest (peer_table ps); peers = peer_table ps }

  -- `wgPeers`; `none` is a 204.
  unfoldable pub wg_peers : Text → List WgPeer → Option WgPeersResponse
  unfolding wg_response
  wg_peers etag ps =
      let resp = wg_response ps in if same_bytes resp.etag etag then none else some resp
