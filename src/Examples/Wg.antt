-- ===== src/Examples/Wg.antt =====
-- WireGuard: two peers that a store issues, and an interface that refuses one key.
use mathlib.Core.Path.{subst}
use fips_exit_gate.Base.{
  ℕ, zero, suc, ◌+◌, ◌≡◌, refl, ◌∙◌, sym, ap, inl, inr, Bool, true, false, Option, none, some, List,
  [], ◌∷◌, arith, if◌then◌else◌, take, Bool-cases, some_eq,
}
use fips_exit_gate.Base.Equality.{same_bytes, same_bytes_iff, bytes_eq}
use fips_exit_gate.Base.Sets.{contains}
use fips_exit_gate.Base.Assoc.{lookup, insert, erase, lookup-insert, lookup-erase}
use fips_exit_gate.Store.State.{Db, owner, new_authz}
use fips_exit_gate.Store.Authz.{any}
use fips_exit_gate.Store.Keys.{WgText}
use fips_exit_gate.Store.Wg.{Pool4, WgDb, issued, create_wg_peer}
use fips_exit_gate.Store.Wg.Steps.{created, empty, after, IsIssued, WgRun-IsIssued}
use fips_exit_gate.Agent.Wg.{
  Text, Peer, WgPeersResponse, has_text, desired_peers, WgIface, WgAgent, apply_wg_peers,
}
use fips_exit_gate.Agent.Wg.Diff.{or_else, edited, clear, shares}
use fips_exit_gate.Agent.Wg.Table.{IsRouted, IsWgIface}
use fips_exit_gate.Agent.Wg.Retry.{IsApplied, apply_wg_peers-IsApplied}

abbrev pub bytes : ℕ → ℕ → List ℕ
bytes zero b = []
bytes (suc n) b = b ∷ bytes n b

abbrev pub text : WgText
text = record {
  trim = λ s. s;
  decode = λ s. some (take 32 s);
  split_host_port = λ s. none;
  atoi = λ s. none;
}

abbrev pub pool : Pool4
pool = record { addr = 171966464; bits = 16 }

abbrev pub tables : Db
tables = record {
  accounts = record { id = 1; npub = 11; fips_addr = 101; active = true } ∷ [];
  whitelist =
      record {
        id = 1;
        account_id = 1;
        npub = 11;
        fips_addr = 101;
        role = owner;
        enabled = true;
        pending = false;
      }
      ∷ [];
  entitlements = [];
  services = [];
  reports = [];
  samples = [];
  packages = [];
  purchases = [];
  authz = new_authz;
}

abbrev pub derive : ℕ → Option ℕ
derive npub = some (npub + 90)

abbrev pub no_peers : WgDb
no_peers = record { peers = []; alloc = 0 }

issues : create_wg_peer text derive pool 0 9 11 11 (bytes 44 65) tables no_peers ≡ (
  record {
    peers =
        record { id = 9; account_id = 1; npub = 11; fips_addr = 101; pubkey = bytes 44 65; idx = 3 }
        ∷ [];
    alloc = 1;
  },
  issued (record {
    id = 9;
    account_id = 1;
    npub = 11;
    fips_addr = 101;
    pubkey = bytes 44 65;
    idx = 3;
  }),
)
unfolding create_wg_peer any contains
issues = refl

WgRun-IsIssued_example :
    IsIssued text derive pool 0
      (create_wg_peer text derive pool 0 9 11 11 (bytes 44 65) tables no_peers).0
WgRun-IsIssued_example =
    WgRun-IsIssued text derive pool 0 (after (empty 0) (created 9 11 11 (bytes 44 65) tables))

-- An interface as the list of its peers, which refuses every change that adds the key `bad`.
abbrev bad : Text
bad = 66 ∷ []

abbrev add_all : List Peer → List Peer → List Peer
add_all [] w = w
add_all ((k, ips) ∷ add) w = insert k ips (add_all add w)

abbrev del_all : List Text → List Peer → List Peer
del_all [] w = w
del_all (k ∷ del) w = erase k (del_all del w)

abbrev is_known : Option (List Text) → Bool
is_known none = false
is_known (some ips) = true

abbrev pub wire : WgIface (List Peer)
wire = record {
  list_peers = λ w. some w;
  wg_set =
      λ add del w. if is_known (lookup bad add) then none else some (del_all del (add_all add w));
  peer_at = λ w k. lookup k w;
}

lookup-add_all :
    (k : Text) (add w : List Peer) → lookup k (add_all add w) ≡ or_else (lookup k add) (lookup k w)
unfolding lookup
lookup-add_all k [] w = refl
lookup-add_all k ((j, ips) ∷ add) w =
    lookup-insert j k ips (add_all add w) ∙ elim (Bool-cases (same_bytes j k)) [
      | inl y ↦ rw y refl
      | inr n ↦ rw n (lookup-add_all k add w)
    ]

lookup-del_all :
    (k : Text) (del : List Text) (w : List Peer)
    → lookup k (del_all del w) ≡ (if has_text k del then none else lookup k w)
unfolding has_text any
lookup-del_all k [] w = refl
lookup-del_all k (j ∷ del) w =
    lookup-erase j k (del_all del w)
    ∙ ground (arith, lookup-del_all k del w, same_bytes_iff j k, same_bytes_iff k j)

pub wire-edited :
    (add : List Peer) (del : List Text) (w w' : List Peer)
    → wire.wg_set add del w ≡ some w'
    → (k : Text) → lookup k w' ≡ edited k add del (lookup k w)
unfolding edited
wire-edited add del w w' h k = elim (Bool-cases (is_known (lookup bad add))) [
  | inl y ↦ cc (rw y at h)
  | inr n ↦
      let same : del_all del (add_all add w) ≡ w' = some_eq (rw n at h) in
      ap (lookup k) (sym same)
      ∙ lookup-del_all k del (add_all add w)
      ∙ ap (λ o. if has_text k del then none else o) (lookup-add_all k add w)
]

abbrev pub wire-IsWgIface : IsWgIface wire
wire-IsWgIface = record {
  listed = λ w m h k. ap (lookup k) (sym (some_eq h));
  changed = λ add del w w' u h k c. wire-edited add del w w' h k;
}

-- The table has a good key and `bad`; the interface has a key that is wanted no more.
abbrev table : WgPeersResponse
table = record {
  etag = 1 ∷ [];
  peers =
      record { pubkey = 65 ∷ []; ip4 = 4 ∷ []; ip6 = 6 ∷ [] }
      ∷ record { pubkey = bad; ip4 = 5 ∷ []; ip6 = 7 ∷ [] }
      ∷ [];
}

abbrev pub before : WgAgent (List Peer)
before = record {
  wg_etag = [];
  wg_world = (67 ∷ [], (9 ∷ []) ∷ []) ∷ [];
  wg_errors = 0;
  wg_peers = 0;
}

abbrev synced_agent : WgAgent (List Peer)
synced_agent = record {
  wg_etag = 1 ∷ [];
  wg_world = (65 ∷ [], (4 ∷ []) ∷ (6 ∷ []) ∷ []) ∷ [];
  wg_errors = 1;
  wg_peers = 2;
}

syncs : apply_wg_peers wire table before ≡ (synced_agent, true)
unfolding apply_wg_peers any lookup insert erase same_bytes
syncs = refl

abbrev good_ips : List Text
good_ips = (4 ∷ []) ∷ (6 ∷ []) ∷ []

abbrev bad_ips : List Text
bad_ips = (5 ∷ []) ∷ (7 ∷ []) ∷ []

abbrev rows : List Peer
rows = (65 ∷ [], good_ips) ∷ (bad, bad_ips) ∷ []

apart : (shares bad_ips good_ips ≡ false) × (shares good_ips bad_ips ≡ false)
unfolding shares has_text any same_bytes
apart = (refl, refl)

rows-IsRouted : IsRouted rows
unfolding lookup clear
rows-IsRouted k = elim (Bool-cases (same_bytes (65 ∷ []) k)) [
  | inl y ↦ rw (y, apart.0) (ground arith)
  | inr n ↦ elim (Bool-cases (same_bytes bad k)) [
    | inl y ↦ rw (n, y, apart.1) (rw (n, y) (ground arith))
    | inr m ↦ rw (n, m) refl
  ]
]

desired_rows : rows ≡ desired_peers table
unfolding desired_peers insert same_bytes
desired_rows = refl

table-IsRouted : IsRouted (desired_peers table)
table-IsRouted = subst IsRouted desired_rows rows-IsRouted

apply_wg_peers-IsApplied_example : IsApplied wire wire-IsWgIface table before.wg_world synced_agent
apply_wg_peers-IsApplied_example =
    apply_wg_peers-IsApplied wire wire-IsWgIface table before synced_agent table-IsRouted syncs
