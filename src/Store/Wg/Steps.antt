-- ===== src/Store/Wg/Steps.antt =====
-- The operations of backend/store/wg.go in any order.
use fips_exit_gate.Base.{
  ℕ, ◌≡◌, refl, inl, inr, true, not, Option, none, some, List, [], arith, leb, Bool-cases,
}
use fips_exit_gate.Store.State.{EntryRow, Db}
use fips_exit_gate.Store.Authz.{any}
use fips_exit_gate.Store.Keys.{WgText, valid_wg_key}
use fips_exit_gate.Store.Wg.{
  Pool4, slots, max_wg_peers, WgPeer, WgDb, count_peers, allocate, issue, may_issue, active_entry,
  issue_at, create_wg_peer, is_controlled, delete_wg_peer,
}
use fips_exit_gate.Store.Wg.Issue.{
  IsTable, slots-pos, allocate-Allocates, keep-IsTable, allocated-IsTable,
}

module _ (t : WgText) (derive : ℕ → Option ℕ) (pool : Pool4) (limit : ℕ) where
  -- The table of a store with these settings.
  abbrev pub IsIssued : WgDb → Type 0
  IsIssued s = IsTable t (slots pool) (max_wg_peers limit) s.peers

  -- `created` and `deleted` are calls with any arguments, on any state of the other tables, whether
  -- they succeed or fail.
  pub data WgStep (s : WgDb) : WgDb → Type 0 where
    created :
        (fresh session npub : ℕ) (key : List ℕ) (db : Db)
        → WgStep s (create_wg_peer t derive pool limit fresh session npub key db s).0
    deleted : (session id : ℕ) (db : Db) → WgStep s (delete_wg_peer session id db s).0

  pub data WgRun : WgDb → Type 0 where
    empty : (alloc : ℕ) → WgRun (record { peers = []; alloc = alloc })
    after : {s s' : WgDb} → WgRun s → WgStep s s' → WgRun s'

  issue-IsIssued :
      (fresh npub addr : ℕ) (key : List ℕ) (s : WgDb) (o : Option EntryRow)
      → valid_wg_key t key ≡ true
      → IsIssued s
      → IsIssued (issue pool limit fresh npub addr key s o).0
  unfolding issue
  issue-IsIssued fresh npub addr key s none valid v = v
  issue-IsIssued fresh npub addr key s (some w) valid v =
      elim (Bool-cases (leb (max_wg_peers limit) (count_peers addr s.peers))) [
        | inl full ↦ rw full v
        | inr room ↦
            let row : ℕ → WgPeer = λ idx. record {
              id = fresh;
              account_id = w.account_id;
              npub = npub;
              fips_addr = addr;
              pubkey = key;
              idx = idx;
            } in
            rw room (
              allocated-IsTable t (slots pool) (max_wg_peers limit) (slots-pos pool) row addr key s
                (allocate 64 (slots pool) row s).0 v (λ i. (refl, refl, refl)) valid (ground arith)
                (allocate-Allocates 64 (slots pool) row s))
      ]

  issue_at-IsIssued :
      (fresh session npub : ℕ) (key : List ℕ) (db : Db) (s : WgDb) (o : Option ℕ)
      → valid_wg_key t key ≡ true
      → IsIssued s
      → IsIssued (issue_at pool limit fresh session npub key db s o).0
  unfolding issue_at
  issue_at-IsIssued fresh session npub key db s none valid v = v
  issue_at-IsIssued fresh session npub key db s (some addr) valid v =
      elim (Bool-cases (may_issue session npub db)) [
        | inl may ↦ rw may (issue-IsIssued fresh npub addr key s (active_entry addr db) valid v)
        | inr never ↦ rw never v
      ]

  WgStep-IsIssued : {s s' : WgDb} → WgStep s s' → IsIssued s → IsIssued s'
  unfolding create_wg_peer delete_wg_peer
  WgStep-IsIssued {s = s} (created fresh session npub key db) v =
      elim (Bool-cases (valid_wg_key t (t.trim key))) [
        | inl valid ↦
            rw valid (issue_at-IsIssued fresh session npub (t.trim key) db s (derive npub) valid v)
        | inr bad ↦ rw bad v
      ]
  WgStep-IsIssued {s = s} (deleted session id db) v =
      elim (Bool-cases (any (is_controlled session id db) s.peers)) [
        | inl found ↦ rw found (
            keep-IsTable t (slots pool) (max_wg_peers limit)
              (λ (p : WgPeer). not (is_controlled session id db p)) s.peers v)
        | inr missing ↦ rw missing v
      ]

  -- However peers have been issued and deleted since the table was empty: no two share a slot or a
  -- key, every slot is one of the pool's, from 2 on, every key is one that `ValidWgKey` accepts, and
  -- no address has more peers than the limit.
  pub WgRun-IsIssued : {s : WgDb} → WgRun s → IsIssued s
  WgRun-IsIssued (empty alloc) = record {
    distinct = tt;
    in_pool = tt;
    keys = tt;
    capped = λ addr. unfold count_peers in omega arith;
  }
  WgRun-IsIssued (after r st) = WgStep-IsIssued st (WgRun-IsIssued r)
