-- ===== src/Examples/Peers.antt =====
-- One issued peer, on an interface that has another one.
use fips_exit_gate.Base.{ℕ, ◌≡◌, refl, ap, true, List, [], ◌∷◌, arith}
use fips_exit_gate.Base.Equality.{same_bytes}
use fips_exit_gate.Base.Assoc.{lookup, insert, erase}
use fips_exit_gate.Base.Sets.{contains}
use fips_exit_gate.Store.Authz.{any}
use fips_exit_gate.Store.Wg.{WgDb, create_wg_peer}
use fips_exit_gate.Store.Wg.Steps.{created, empty, after}
use fips_exit_gate.Store.Wg.Table.{Pool6, AddrText, IsAddrText, wg_response}
use fips_exit_gate.Agent.Wg.{Peer, WgAgent, apply_wg_peers}
use fips_exit_gate.Gate.Delivered.{Delivered, wg_response-Delivered}
use fips_exit_gate.Examples.Wg.{
  bytes, text, pool, tables, derive, no_peers, wire, wire-IsWgIface, before,
}

-- Addresses as a mark and their number.
abbrev marked : AddrText
marked = record { text4 = λ a. 4 ∷ a ∷ []; text6 = λ h a. 6 ∷ h ∷ a ∷ []; digest = λ rows. 1 ∷ [] }

abbrev second_of : List ℕ → ℕ
second_of (x ∷ y ∷ zs) = y
second_of _ = 0

abbrev third_of : List ℕ → ℕ
third_of (x ∷ y ∷ z ∷ zs) = z
third_of _ = 0

abbrev first_of : List ℕ → ℕ
first_of (x ∷ xs) = x
first_of [] = 0

four_six : (n : ℕ) → n ≡ 4 → n ≡ 6 → ⊥
four_six n e f = omega (arith, e, f)

marked-IsAddrText : IsAddrText marked
marked-IsAddrText = record {
  injective4 = λ a b p q e. ap second_of e;
  injective6 = λ h a b p q e. ap third_of e;
  apart = λ a h b e. four_six 4 refl (ap first_of e);
}

abbrev pool6 : Pool6
pool6 = record { high = 64528; low = 0 }

abbrev issued_db : WgDb
issued_db = (create_wg_peer text derive pool 0 9 11 11 (bytes 44 65) tables no_peers).0

abbrev mirrored : WgAgent (List Peer)
mirrored = record {
  wg_etag = 1 ∷ [];
  wg_world = (bytes 44 65, (4 ∷ 171966467 ∷ []) ∷ (6 ∷ 64528 ∷ 3 ∷ []) ∷ []) ∷ [];
  wg_errors = 0;
  wg_peers = 1;
}

mirrors :
    apply_wg_peers wire (wg_response marked pool pool6 issued_db.peers) before ≡ (mirrored, true)
unfolding apply_wg_peers wg_response create_wg_peer any contains lookup insert erase same_bytes
mirrors = refl

wg_response-Delivered_example :
    Delivered marked pool pool6 wire before.wg_world issued_db.peers mirrored.wg_world
wg_response-Delivered_example =
    wg_response-Delivered marked pool pool6 marked-IsAddrText (omega arith) (omega arith) wire
      wire-IsWgIface text derive 0 issued_db before mirrored
      (after (empty 0) (created 9 11 11 (bytes 44 65) tables)) mirrors
