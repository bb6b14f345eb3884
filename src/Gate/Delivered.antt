-- ===== src/Gate/Delivered.antt =====
-- The peers that the backend has issued, on the interface of a node: both addresses of each, worked
-- out from the pools and the slot.
use mathlib.Core.List.{Memᴰ}
use mathlib.Core.Path.{subst}
use native.Mathlib.Nat.{mod-eq_of_lt}
use fips_exit_gate.Base.{
  ℕ, ◌+◌, ◌-◌, ◌*◌, ◌/◌, ◌%◌, ◌^◌, ◌<◌, ◌≤◌, ◌≡◌, ◌≢◌, ◌↔◌, ◌⊎◌, refl, sym, ap, true, false, Option,
  none, some, List, [], ◌∷◌, arith, inl, inr, All, Bool-cases,
}
use fips_exit_gate.Base.Equality.{same_bytes, same_bytes_iff}
use fips_exit_gate.Store.Authz.{any}
use fips_exit_gate.Store.Keys.{WgText}
use fips_exit_gate.Store.Wg.{Pool4, slots, masked, has_key, WgPeer, WgDb}
use fips_exit_gate.Store.Wg.Issue.{IsDistinct}
use fips_exit_gate.Store.Wg.Pool.{offset4_lem}
use fips_exit_gate.Store.Wg.Steps.{WgRun, WgRun-IsIssued}
use fips_exit_gate.Store.Wg.Table.{
  Pool6, offset6, AddrText, IsAddrText, peer_info, peer_table, wg_response,
}
use fips_exit_gate.Agent.Wg.{Text, WgPeerInfo, has_text, WgIface, WgAgent, apply_wg_peers}
use fips_exit_gate.Agent.Wg.Table.{IsWgIface}
use fips_exit_gate.Agent.Wg.Singles.{IsRefused}
use fips_exit_gate.Agent.Wg.Wanted.{last_peer, HasAddresses}
use fips_exit_gate.Gate.Peers.{offset4-lt, wg_response-IsApplied}

All-Memᴰ : {A : Type 0} (P : A → Type 0) (xs : List A) {x : A} → Memᴰ x xs → All P xs → P x
All-Memᴰ P [] m u = elim m [ ]
All-Memᴰ P (y ∷ xs) (Memᴰ.head same) (h, u) = subst P (sym same) h
All-Memᴰ P (y ∷ xs) (Memᴰ.tail m) (h, u) = All-Memᴰ P xs m u

module _ (t : AddrText) (pool4 : Pool4) (pool6 : Pool6) where
  last_peer_absent :
      (k : Text) (ps : List WgPeer)
      → has_key k ps ≡ false
      → last_peer k (peer_table t pool4 pool6 ps) ≡ none
  unfolding peer_table has_key any
  last_peer_absent k [] h = refl
  last_peer_absent k (p ∷ ps) h = ground (arith, last_peer_absent k ps)

  last_peer_of :
      (p : WgPeer) (ps : List WgPeer)
      → Memᴰ p ps
      → IsDistinct ps
      → last_peer p.pubkey (peer_table t pool4 pool6 ps) ≡ some (peer_info t pool4 pool6 p)
  unfolding peer_table
  last_peer_of p [] m d = elim m [ ]
  last_peer_of p (q ∷ ps) (Memᴰ.head same) (i, k, d) =
      let itself : same_bytes q.pubkey q.pubkey ≡ true =
        (same_bytes_iff q.pubkey q.pubkey).1 refl in
      subst
        (λ (z : WgPeer).
          last_peer z.pubkey (peer_table t pool4 pool6 (q ∷ ps)) ≡ some (peer_info t pool4 pool6 z))
        (sym same) (rw (last_peer_absent q.pubkey ps k, itself) refl)
  last_peer_of p (q ∷ ps) (Memᴰ.tail m) (i, k, d) = rw (last_peer_of p ps m d) refl

  no_key :
      (k : Text) (ps : List WgPeer)
      → ((p : WgPeer) → Memᴰ p ps → p.pubkey ≢ k)
      → has_key k ps ≡ false
  unfolding has_key any
  no_key k [] h = refl
  no_key k (p ∷ ps) h =
      let ih = no_key k ps (λ q m. h q (Memᴰ.tail m)) in
      elim (Bool-cases (same_bytes p.pubkey k)) [
        | inl y ↦ absurd (h p (Memᴰ.head refl) ((same_bytes_iff p.pubkey k).0 y))
        | inr n ↦ rw n ih
      ]

  -- Exactly the two addresses of a slot, where an empty text is none.
  abbrev pub IsAddressed : ℕ → List Text → Type 0
  IsAddressed idx ips =
      (x : Text)
      → (has_text x ips ≡ true) ↔ (
          (x ≢ [])
          × ((x ≡ t.text4 (pool4.addr / 2 ^ (32 - pool4.bits) * 2 ^ (32 - pool4.bits) + idx))
              ⊎ (x ≡ t.text6 pool6.high ((pool6.low + idx) % 2 ^ 32))))

  -- The issued peers on an interface after a sync that began at `start`.
  pub record Delivered {W : Type 0} (g : WgIface W) (start : W) (ps : List WgPeer) (w : W)
      : Type 0 where
    pub each :
        (p : WgPeer)
        → Memᴰ p ps
        → (ips : List Text) × IsAddressed p.idx ips
          × ((g.peer_at w p.pubkey ≡ some ips) ⊎ IsRefused g start p.pubkey (some ips))
    pub no_other :
        (k : Text)
        → ((p : WgPeer) → Memᴰ p ps → p.pubkey ≢ k)
        → (g.peer_at w k ≡ none) ⊎ IsRefused g start k none

  filled :
      (i : WgPeerInfo) (o : Option (List Text))
      → HasAddresses (some i) o
      → (ips : List Text) × (o ≡ some ips)
        × ((x : Text) → (has_text x ips ≡ true) ↔ ((x ≢ []) × ((x ≡ i.ip4) ⊎ (x ≡ i.ip6))))
  filled i none h = elim h [ ]
  filled i (some ips) h = (ips, refl, h)

  emptied : (o : Option (List Text)) → HasAddresses none o → o ≡ none
  emptied none h = refl
  emptied (some ips) h = elim h [ ]

  module _ (laws : IsAddrText t) (small : pool4.bits ≤ 30) (real : pool4.addr < 2 ^ 32) where
    addresses_of :
        (p : WgPeer)
        → 2 ≤ p.idx
        → p.idx < 2 + slots pool4
        → ((peer_info t pool4 pool6 p).ip4
            ≡ t.text4 (pool4.addr / 2 ^ (32 - pool4.bits) * 2 ^ (32 - pool4.bits) + p.idx))
          × ((peer_info t pool4 pool6 p).ip6 ≡ t.text6 pool6.high ((pool6.low + p.idx) % 2 ^ 32))
    unfolding peer_info masked offset6
    addresses_of p low high =
        let (at, _, _) = offset4_lem pool4 p.idx small real low high in
        let in_word : p.idx < 2 ^ 32 = omega (arith, at, offset4-lt t laws pool4 pool6 p.idx) in
        let whole : p.idx % 2 ^ 32 ≡ p.idx = mod-eq_of_lt in_word in
        (ap t.text4 at, ap (λ n. t.text6 pool6.high ((pool6.low + n) % 2 ^ 32)) whole)

    -- With an IPv4 pool inside the address space that has at least two host bits, and where different
    -- addresses have different texts: however peers have been issued and deleted, after a sync that
    -- has returned no error every issued peer has on the interface exactly two addresses, which are
    -- those of its slot in the two pools (their texts, if not empty), and no other key is there. Only a
    -- key may differ for which the interface refused just that, asked for it alone on a state that
    -- this sync went through.
    pub wg_response-Delivered :
        {W : Type 0} (g : WgIface W) (wires : IsWgIface g) (keys : WgText) (derive : ℕ → Option ℕ)
        (limit : ℕ) (s : WgDb) (a a' : WgAgent W)
        → WgRun keys derive pool4 limit s
        → apply_wg_peers g (wg_response t pool4 pool6 s.peers) a ≡ (a', true)
        → Delivered g a.wg_world s.peers a'.wg_world
    unfolding wg_response
    wg_response-Delivered g wires keys derive limit s a a' r h =
        let v = WgRun-IsIssued keys derive pool4 limit r in
        let (at, _) =
          wg_response-IsApplied t laws pool4 pool6 small real g wires keys derive limit s a a' r
            h in
        record {
          each = λ p m.
              let (o, has, same) = at p.pubkey in
              let (ips, is, names) =
                filled (peer_info t pool4 pool6 p) o
                  (subst (λ i. HasAddresses i o) (last_peer_of p s.peers m v.distinct) has) in
              let (low, high) = All-Memᴰ _ s.peers m v.in_pool in
              let (to4, to6) = addresses_of p low high in
              (ips, λ x. rw (← to4, ← to6) (names x), rw is at same);
          no_other = λ k absent.
              let (o, has, same) = at k in
              let none_there = emptied o (
                subst (λ i. HasAddresses i o) (last_peer_absent k s.peers (no_key k s.peers absent))
                  has) in
              rw none_there at same;
        }
