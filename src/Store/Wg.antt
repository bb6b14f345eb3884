-- ===== src/Store/Wg.antt =====
-- backend/store/wg.go: the WireGuard peer table and its address plan.
--
-- Npubs and addresses are only compared, and are numbers; keys are lists of bytes; labels are left out. `derive` is the address of an npub (pkg/fipsaddr).
pub mod Issue
pub mod Steps
pub mod Pool
pub mod Table
use fips_exit_gate.Base.{
  ℕ, zero, suc, ◌+◌, ◌-◌, ◌*◌, ◌/◌, ◌%◌, ◌^◌, Bool, true, false, not, ◌&&◌, ◌||◌, Option, none,
  some, List, [], ◌∷◌, ◌++◌, ltb, leb, ◌==◌, if◌then◌else◌, length, keep,
}
use fips_exit_gate.Base.Equality.{same_bytes}
use fips_exit_gate.Store.Keys.{WgText, valid_wg_key}
use fips_exit_gate.Store.State.{AccountRow, EntryRow, Db}
use fips_exit_gate.Store.Authz.{any}
use fips_exit_gate.Store.Whitelist.{is_active_row, find}

pub data WgError : Type 0 where
  wg_peer_limit : WgError
  wg_forbidden : WgError
  wg_bad_key : WgError
  wg_peer_not_found : WgError
  wg_pool_full : WgError
  wg_not_active : WgError
  wg_bad_npub : WgError

-- An IPv4 pool: its address as a number, and the length of the prefix.
pub record Pool4 : Type 0 where
  pub addr : ℕ
  pub bits : ℕ

unfoldable pub host_bits : Pool4 → ℕ
host_bits p = if ltb 24 (32 - p.bits) then 24 else 32 - p.bits

-- `slots`, which is a divisor: below 2 host bits it is negative, and a remainder by it is one by its
-- absolute value.
unfoldable pub slots : Pool4 → ℕ
unfolding host_bits
slots p = let n = 2 ^ host_bits p in if ltb n 3 then 3 - n else n - 3

-- `pfx.Masked().Addr()`.
unfoldable pub masked : Pool4 → ℕ
masked p = p.addr / 2 ^ (32 - p.bits) * 2 ^ (32 - p.bits)

-- `offset4`, on a `uint32`.
unfoldable pub offset4 : Pool4 → ℕ → ℕ
unfolding masked
offset4 p n = (masked p + n % 2 ^ 32) % 2 ^ 32

abbrev pub default_max_wg_peers_per_addr : ℕ
default_max_wg_peers_per_addr = 5

unfoldable pub max_wg_peers : ℕ → ℕ
max_wg_peers configured = if ltb 0 configured then configured else default_max_wg_peers_per_addr

-- A row of `wg_peers`.
pub record WgPeer : Type 0 where
  pub id : ℕ
  pub account_id : ℕ
  pub npub : ℕ
  pub fips_addr : ℕ
  pub pubkey : List ℕ
  pub idx : ℕ

-- `alloc` is the last value of the sequence `wg_peer_alloc`.
pub record WgDb : Type 0 where
  pub peers : List WgPeer
  pub alloc : ℕ

pub data Issued : Type 0 where
  issued : WgPeer → Issued
  refused : WgError → Issued

unfoldable pub has_idx : ℕ → List WgPeer → Bool
unfolding any
has_idx idx peers = any (λ (p : WgPeer). p.idx == idx) peers

unfoldable pub has_key : List ℕ → List WgPeer → Bool
unfolding any same_bytes
has_key key peers = any (λ (p : WgPeer). same_bytes p.pubkey key) peers

-- The permission of `CreateWgPeer` for an npub that is not the session's.
unfoldable pub may_issue : ℕ → ℕ → Db → Bool
unfolding any is_active_row
may_issue session npub db =
    npub == session
    || any
        (λ (w : EntryRow).
          w.npub == npub
          && is_active_row w
          && any (λ (a : AccountRow). a.id == w.account_id && a.npub == session) db.accounts)
        db.whitelist

-- The row that an address is active on.
unfoldable pub active_entry : ℕ → Db → Option EntryRow
unfolding find is_active_row
active_entry addr db = find (λ (w : EntryRow). w.fips_addr == addr && is_active_row w) db.whitelist

unfoldable pub count_peers : ℕ → List WgPeer → ℕ
count_peers addr peers = length (keep (λ (p : WgPeer). p.fips_addr == addr) peers)

-- The slot of the `n`-th value of the sequence.
unfoldable pub slot : ℕ → ℕ → ℕ
slot size n = 2 + n % size

-- The attempts to find a free slot. The sequence goes on whatever becomes of the transaction.
unfoldable pub allocate : ℕ → ℕ → (ℕ → WgPeer) → WgDb → WgDb × Issued
unfolding has_idx has_key slot
allocate zero size row s = (s, refused wg_pool_full)
allocate (suc tries) size row s =
    let n = s.alloc + 1 in
    let s' = record s { alloc = n } in
    let p = row (slot size n) in
    let next = allocate tries size row s' in
    if has_idx p.idx s.peers
    then next
    else if has_key p.pubkey s.peers
    then (s', refused wg_bad_key)
    else (record s' { peers = p ∷ s.peers }, issued p)

unfoldable pub issue : Pool4 → ℕ → ℕ → ℕ → ℕ → List ℕ → WgDb → Option EntryRow → WgDb × Issued
unfolding allocate slots max_wg_peers count_peers
issue pool limit fresh npub addr pubkey s none = (s, refused wg_not_active)
issue pool limit fresh npub addr pubkey s (some w) =
    if leb (max_wg_peers limit) (count_peers addr s.peers)
    then (s, refused wg_peer_limit)
    else allocate 64 (slots pool)
        (λ idx. record {
          id = fresh;
          account_id = w.account_id;
          npub = npub;
          fips_addr = addr;
          pubkey = pubkey;
          idx = idx;
        })
        s

unfoldable pub issue_at : Pool4 → ℕ → ℕ → ℕ → ℕ → List ℕ → Db → WgDb → Option ℕ → WgDb × Issued
unfolding issue may_issue active_entry
issue_at pool limit fresh session npub pubkey db s none = (s, refused wg_bad_npub)
issue_at pool limit fresh session npub pubkey db s (some addr) =
    if may_issue session npub db
    then issue pool limit fresh npub addr pubkey s (active_entry addr db)
    else (s, refused wg_forbidden)

module _ (t : WgText) (derive : ℕ → Option ℕ) where
  unfoldable pub create_wg_peer : Pool4 → ℕ → ℕ → ℕ → ℕ → List ℕ → Db → WgDb → WgDb × Issued
  unfolding issue_at valid_wg_key
  create_wg_peer pool limit fresh session npub pubkey db s =
      let key = t.trim pubkey in
      if valid_wg_key t key
      then issue_at pool limit fresh session npub key db s (derive npub)
      else (s, refused wg_bad_key)

-- The `WHERE` of `DeleteWgPeer`.
unfoldable pub is_controlled : ℕ → ℕ → Db → WgPeer → Bool
unfolding any
is_controlled session id db p =
    p.id == id
    && any (λ (a : AccountRow). a.id == p.account_id && (a.npub == session || p.npub == session))
        db.accounts

unfoldable pub delete_wg_peer : ℕ → ℕ → Db → WgDb → WgDb × Option WgError
unfolding is_controlled any
delete_wg_peer session id db s =
    if any (is_controlled session id db) s.peers
    then (
      record s { peers = keep (λ (p : WgPeer). not (is_controlled session id db p)) s.peers },
      none,
    )
    else (s, some wg_peer_not_found)
