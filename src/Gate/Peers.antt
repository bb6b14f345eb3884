-- ===== src/Gate/Peers.antt =====
-- The peers that the backend has issued, on a node that has applied its table.
use native.Mathlib.Nat.{mod-lt}
use fips_exit_gate.Base.{
  ℕ, ◌+◌, ◌%◌, ◌^◌, ◌<◌, ◌≤◌, ◌≡◌, refl, sym, true, false, Option, List, [], ◌∷◌, arith, inl, inr,
  ◌==◌, All, Bool-cases, Option-cases,
}
use fips_exit_gate.Base.Equality.{same_bytes, same_bytes_iff, bytes_eq}
use fips_exit_gate.Base.Assoc.{lookup, insert}
use fips_exit_gate.Store.Wg.{Pool4, slots, masked, offset4, WgPeer, WgDb}
use fips_exit_gate.Store.Wg.Issue.{IsDistinct}
use fips_exit_gate.Store.Wg.Pool.{offset4_lem}
use fips_exit_gate.Store.Wg.Table.{
  Pool6, offset6, AddrText, IsAddrText, peer_info, peer_table, wg_response,
}
use fips_exit_gate.Agent.Wg.{
  Text, Peer, WgPeerInfo, has_text, allowed_ips, fill_peers, desired_peers,
}
use fips_exit_gate.Agent.Wg.Diff.{shares, clear}
use fips_exit_gate.Agent.Wg.Table.{IsRouted}
use fips_exit_gate.Store.Keys.{WgText}
use fips_exit_gate.Store.Wg.Steps.{WgRun, WgRun-IsIssued}
use fips_exit_gate.Agent.Wg.{WgIface, WgAgent, apply_wg_peers}
use fips_exit_gate.Agent.Wg.Table.{IsWgIface}
use fips_exit_gate.Agent.Wg.Retry.{IsApplied, apply_wg_peers-IsApplied}
use fips_exit_gate.Gate.Slots.{
  apart_at, IsDistinct-apart_at, any-allowed_ips, All-insert, All-lookup, clear_from, All-clear,
}

module _ (t : AddrText) (laws : IsAddrText t) (pool4 : Pool4) (pool6 : Pool6) where
  abbrev info : WgPeer → WgPeerInfo
  info p = peer_info t pool4 pool6 p

  -- An address of one slot is none of another's.
  not_allowed :
      (x : Text) (q : WgPeer)
      → same_bytes x (info q).ip4 ≡ false
      → same_bytes x (info q).ip6 ≡ false
      → has_text x (allowed_ips (info q)) ≡ false
  unfolding has_text
  not_allowed x q h k = any-allowed_ips (same_bytes x) (info q) h k

  differ : (x y : Text) → (x ≡ y → ⊥) → same_bytes x y ≡ false
  differ x y n = elim (Bool-cases (same_bytes x y)) [
    | inl same ↦ absurd (n ((same_bytes_iff x y).0 same))
    | inr other ↦ other
  ]

  offset6-injective :
      (i j : ℕ) → i < 2 ^ 32 → j < 2 ^ 32 → offset6 pool6 i ≡ offset6 pool6 j → i ≡ j
  unfolding offset6
  offset6-injective i j hi hj e =
      let e' : (pool6.low + i % 2 ^ 32) % 2 ^ 32 ≡ (pool6.low + j % 2 ^ 32) % 2 ^ 32 = e in
      omega (arith, e')

  pub offset4-lt : (i : ℕ) → offset4 pool4 i < 2 ^ 32
  unfolding offset4
  offset4-lt i = mod-lt (masked pool4 + i % 2 ^ 32) (omega arith)

  offset6-lt : (i : ℕ) → offset6 pool6 i < 2 ^ 32
  unfolding offset6
  offset6-lt i = mod-lt (pool6.low + i % 2 ^ 32) (omega arith)

  abbrev InPool : WgPeer → Type 0
  InPool p = (2 ≤ p.idx) × (p.idx < 2 + slots pool4)

  different-shares :
      (p q : WgPeer)
      → pool4.bits ≤ 30
      → pool4.addr < 2 ^ 32
      → InPool p
      → InPool q
      → (p.idx ≡ q.idx → ⊥)
      → shares (allowed_ips (info p)) (allowed_ips (info q)) ≡ false
  unfolding shares peer_info
  different-shares p q b a hp hq n =
      let (atp, _, _) = offset4_lem pool4 p.idx b a hp.0 hp.1 in
      let (atq, _, _) = offset4_lem pool4 q.idx b a hq.0 hq.1 in
      let ltp = offset4-lt p.idx in
      let ltq = offset4-lt q.idx in
      any-allowed_ips (λ (x : Text). has_text x (allowed_ips (info q))) (info p)
        (not_allowed (info p).ip4 q
          (differ (info p).ip4 (info q).ip4 (λ e. n (
            omega (
              arith,
              atp,
              atq,
              laws.injective4 (offset4 pool4 p.idx) (offset4 pool4 q.idx) ltp ltq e,
            ))))
          (differ (info p).ip4 (info q).ip6 (λ e. laws.apart _ _ _ e)))
        (not_allowed (info p).ip6 q
          (differ (info p).ip6 (info q).ip4 (λ e. laws.apart _ _ _ (sym e)))
          (differ (info p).ip6 (info q).ip6 (λ e. n (
            offset6-injective p.idx q.idx (omega (arith, atp, ltp)) (omega (arith, atq, ltq)) (
              laws.injective6 pool6.high (offset6 pool6 p.idx) (offset6 pool6 q.idx)
                (offset6-lt p.idx) (offset6-lt q.idx) e)))))

  abbrev row : WgPeer → Peer
  row p = (p.pubkey, allowed_ips (info p))

  All-fill_peers :
      (P : Peer → Type 0) (ps : List WgPeer) (m : List Peer)
      → All (λ p. P (row p)) ps
      → All P m
      → All P (fill_peers (peer_table t pool4 pool6 ps) m)
  unfolding fill_peers peer_table
  All-fill_peers P [] m u v = v
  All-fill_peers P (p ∷ ps) m (h, u) v =
      All-fill_peers P ps (insert p.pubkey (allowed_ips (info p)) m) u
        (All-insert P p.pubkey (allowed_ips (info p)) m (unfold peer_info in h) v)

  module _ (small : pool4.bits ≤ 30) (real : pool4.addr < 2 ^ 32) where
    rows-clear :
        (q : WgPeer) (ps : List WgPeer)
        → InPool q
        → All InPool ps
        → All (λ p. apart_at q p ≡ true) ps
        → All (λ p. clear_from q.pubkey (allowed_ips (info q)) (row p) ≡ true) ps
    rows-clear q [] hq u v = tt
    rows-clear q (p ∷ ps) hq (hp, u) (g, v) = (
      elim (Bool-cases (same_bytes p.pubkey q.pubkey)) [
        | inl same ↦ rw same refl
        | inr other ↦
            let split : (p.idx == q.idx) ≡ false = ground arith in
            rw (other, different-shares p q small real hp hq (λ e. ground arith)) refl
      ],
      rows-clear q ps hq u v,
    )

    all-clear :
        (all qs : List WgPeer)
        → All InPool all
        → All InPool qs
        → All (λ q. All (λ p. apart_at q p ≡ true) all) qs
        → All
            (λ q.
              clear q.pubkey (allowed_ips (info q)) (desired_peers (wg_response t pool4 pool6 all))
              ≡ true)
            qs
    unfolding desired_peers wg_response
    all-clear all [] u w v = tt
    all-clear all (q ∷ qs) u (hq, w) (g, v) = (
      All-clear q.pubkey (allowed_ips (info q)) _
          (All-fill_peers _ all [] (rows-clear q all hq u g) tt),
      all-clear all qs u w v,
    )

    -- The table of a store gives no address to two peers.
    wg_response-IsRouted :
        (ps : List WgPeer)
        → IsDistinct ps
        → All InPool ps
        → IsRouted (desired_peers (wg_response t pool4 pool6 ps))
    wg_response-IsRouted ps d u k =
        let m = desired_peers (wg_response t pool4 pool6 ps) in
        elim (Option-cases (lookup k m)) [
          | inl e ↦ rw e refl
          | inr (ips, e) ↦ rw e (
              All-lookup (λ (x : Peer). clear x.0 x.1 m ≡ true) k ips m
                (unfold desired_peers in
                  unfold wg_response in
                  All-fill_peers _ ps [] (all-clear ps ps u u (IsDistinct-apart_at ps d)) tt)
                e)
        ]

    -- With an IPv4 pool inside the address space that has at least two host bits, and where different
    -- addresses have different texts: however peers have been issued and deleted, a node whose sync
    -- has returned no error has every issued peer with its two addresses and no other peer, but for
    -- keys whose change its interface refuses.
    pub wg_response-IsApplied :
        {W : Type 0} (g : WgIface W) (wires : IsWgIface g) (keys : WgText) (derive : ℕ → Option ℕ)
        (limit : ℕ) (s : WgDb) (a a' : WgAgent W)
        → WgRun keys derive pool4 limit s
        → apply_wg_peers g (wg_response t pool4 pool6 s.peers) a ≡ (a', true)
        → IsApplied g wires (wg_response t pool4 pool6 s.peers) a.wg_world a'
    wg_response-IsApplied g wires keys derive limit s a a' r h =
        let v = WgRun-IsIssued keys derive pool4 limit r in
        apply_wg_peers-IsApplied g wires (wg_response t pool4 pool6 s.peers) a a'
          (wg_response-IsRouted s.peers v.distinct v.in_pool) h
