-- ===== src/Agent/Wg.antt =====
-- agent/wg.go: the backend's WireGuard peer table mirrored onto the node's interface.
--
-- Keys, addresses and etags are texts, as lists of bytes. A map of peers holds the allowed addresses
-- by key. The texts of addresses hold no comma, so that two lists are joined alike exactly if they
-- are equal.
pub mod Diff
pub mod Table
pub mod Singles
pub mod Wanted
pub mod Retry
use fips_exit_gate.Base.{
  ℕ, zero, suc, ◌+◌, ◌≡◌, Bool, true, false, not, ◌&&◌, ◌||◌, Option, none, some, List, [], ◌∷◌,
  ◌++◌, ltb, ◌==◌, if◌then◌else◌, length,
}
use fips_exit_gate.Base.Equality.{same_bytes, bytes_eq}
use fips_exit_gate.Base.Assoc.{lookup, insert}
use fips_exit_gate.Store.Authz.{any}

abbrev pub Text : Type 0
Text = List ℕ

-- `wgPeer`: a key and its allowed addresses.
abbrev pub Peer : Type 0
Peer = Text × List Text

pub record WgPeerInfo : Type 0 where
  pub pubkey : Text
  pub ip4 : Text
  pub ip6 : Text

pub record WgPeersResponse : Type 0 where
  pub etag : Text
  pub peers : List WgPeerInfo

-- The order of Go's strings, and a sort by it.
unfoldable pub text_leb : Text → Text → Bool
text_leb [] ys = true
text_leb (x ∷ xs) [] = false
text_leb (x ∷ xs) (y ∷ ys) = ltb x y || (x == y && text_leb xs ys)

unfoldable pub place {ℓ} : {A : Type ℓ} → (A → A → Bool) → A → List A → List A
place le a [] = a ∷ []
place le a (b ∷ bs) = let rest = place le a bs in if le a b then a ∷ b ∷ bs else b ∷ rest

unfoldable pub sort {ℓ} : {A : Type ℓ} → (A → A → Bool) → List A → List A
unfolding place
sort le [] = []
sort le (a ∷ as') = place le a (sort le as')

abbrev pub peer_leb : Peer → Peer → Bool
peer_leb (j, a) (k, b) = text_leb j k

unfoldable pub same_texts : List Text → List Text → Bool
same_texts [] [] = true
same_texts [] (y ∷ ys) = false
same_texts (x ∷ xs) [] = false
same_texts (x ∷ xs) (y ∷ ys) = same_bytes x y && same_texts xs ys

unfoldable pub has_text : Text → List Text → Bool
unfolding any
has_text t ts = any (same_bytes t) ts

unfoldable pub non_empty : Text → List Text
non_empty [] = []
non_empty (b ∷ bs) = (b ∷ bs) ∷ []

-- `desiredPeers`.
unfoldable pub allowed_ips : WgPeerInfo → List Text
unfolding non_empty sort text_leb
allowed_ips p = sort text_leb (non_empty p.ip4 ++ non_empty p.ip6)

unfoldable pub fill_peers : List WgPeerInfo → List Peer → List Peer
unfolding allowed_ips
fill_peers [] m = m
fill_peers (p ∷ ps) m = fill_peers ps (insert p.pubkey (allowed_ips p) m)

unfoldable pub desired_peers : WgPeersResponse → List Peer
unfolding fill_peers
desired_peers resp = fill_peers resp.peers []

-- `diffPeers`.
unfoldable pub is_same : Option (List Text) → List Text → Bool
unfolding same_texts
is_same none want = false
is_same (some have) want = same_texts have want

unfoldable pub to_add : List Peer → List Peer → List Peer
unfolding is_same
to_add current [] = []
to_add current ((k, want) ∷ desired) =
    let rest = to_add current desired in
    if is_same (lookup k current) want then rest else (k, want) ∷ rest

unfoldable pub is_wanted : Option (List Text) → Bool
is_wanted none = false
is_wanted (some ips) = true

unfoldable pub to_del : List Peer → List Peer → List Text
unfolding is_wanted
to_del desired [] = []
to_del desired ((k, ips) ∷ current) =
    let rest = to_del desired current in if is_wanted (lookup k desired) then rest else k ∷ rest

unfoldable pub diff_peers : List Peer → List Peer → List Peer × List Text
unfolding to_add to_del sort text_leb
diff_peers current desired =
    (sort peer_leb (to_add current desired), sort text_leb (to_del desired current))

-- `wg show` and `wg set` on the interface, and the peers that it has. `none` is an error that leaves
-- it as it was: a call that is cut off after it has changed something is outside the model.
pub record WgIface (W : Type 0) : Type 0 where
  pub list_peers : W → Option (List Peer)
  pub wg_set : List Peer → List Text → W → Option W
  pub peer_at : W → Text → Option (List Text)

-- `SetPeers` of `wgTool`.
unfoldable pub set_peers : {W : Type 0} → WgIface W → List Peer → List Text → W → Option W
set_peers g [] [] w = some w
set_peers g (p ∷ add) del w = g.wg_set (p ∷ add) del w
set_peers g [] (k ∷ del) w = g.wg_set [] (k ∷ del) w

pub record WgAgent (W : Type 0) : Type 0 where
  pub wg_etag : Text
  pub wg_world : W
  pub wg_errors : ℕ
  pub wg_peers : ℕ

module _ {W : Type 0} (g : WgIface W) where
  -- A change that fails is counted and skipped.
  unfoldable pub skip : W × ℕ → Option W → W × ℕ
  skip (w, failed) none = (w, failed + 1)
  skip (w, failed) (some w') = (w', failed)

  unfoldable pub add_each : List Peer → W × ℕ → W × ℕ
  unfolding skip set_peers
  add_each [] r = r
  add_each (p ∷ add) r = add_each add (skip r (set_peers g (p ∷ []) [] r.0))

  unfoldable pub del_each : List Text → W × ℕ → W × ℕ
  unfolding skip set_peers
  del_each [] r = r
  del_each (k ∷ del) r = del_each del (skip r (set_peers g [] (k ∷ []) r.0))

  unfoldable pub synced : WgPeersResponse → ℕ → W → WgAgent W → WgAgent W
  unfolding desired_peers
  synced resp failed w a = record {
    wg_etag = resp.etag;
    wg_world = w;
    wg_errors = a.wg_errors + failed;
    wg_peers = length (desired_peers resp);
  }

  -- What follows the batch; the Boolean is true if no error is returned.
  unfoldable pub after_batch :
      WgPeersResponse → List Peer → List Text → WgAgent W → Option W → WgAgent W × Bool
  unfolding add_each del_each synced
  after_batch resp add del a (some w) = (synced resp 0 w a, true)
  after_batch resp add del a none =
      let (w, failed) = del_each del (add_each add (a.wg_world, 0)) in
      if failed == length add + length del
      then (record a { wg_world = w }, false)
      else (synced resp failed w a, true)

  unfoldable pub apply_listed : WgPeersResponse → WgAgent W → Option (List Peer) → WgAgent W × Bool
  unfolding after_batch diff_peers desired_peers
  apply_listed resp a none = (a, false)
  apply_listed resp a (some current) =
      let (add, del) = diff_peers current (desired_peers resp) in
      after_batch resp add del a (set_peers g add del a.wg_world)

  -- `applyWgPeers`.
  unfoldable pub apply_wg_peers : WgPeersResponse → WgAgent W → WgAgent W × Bool
  unfolding apply_listed
  apply_wg_peers resp a = apply_listed resp a (g.list_peers a.wg_world)
