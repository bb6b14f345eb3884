-- ===== src/Store/Exits.antt =====
-- backend/store/nodes.go, and what nodes announce in backend/store/wg.go: the exits and
-- their enrolment.
--
-- `sha256` is `sha256Hex`, and `fresh` the id or the random token that an operation draws. Names,
-- versions and notes are left out.
pub mod Enrolled
use fips_exit_gate.Base.{
  ℕ, ◌+◌, Bool, true, false, not, ◌&&◌, Option, none, some, List, [], ◌∷◌, ◌++◌, ltb, ◌==◌,
  if◌then◌else◌, length, keep,
}
use fips_exit_gate.Store.Authz.{any}
use fips_exit_gate.Store.Whitelist.{find}
use fips_exit_gate.Store.Keys.{WgText, valid_wg_key, valid_wg_endpoint}

-- `used_by` is the node, where `used_at` is set.
pub record EnrollToken : Type 0 where
  pub token_hash : ℕ
  pub used_by : Option ℕ

-- The key and the endpoint that a node has announced, and when it last did.
abbrev pub Announcement : Type 0
Announcement = List ℕ × List ℕ × ℕ

pub record ExitNode : Type 0 where
  pub id : ℕ
  pub auth_token_hash : ℕ
  pub last_seen : Option ℕ
  pub announced : Option Announcement

pub record ExitDb : Type 0 where
  pub tokens : List EnrollToken
  pub exits : List ExitNode

pub data ExitError : Type 0 where
  invalid_enroll_token : ExitError
  unauthorized : ExitError
  bad_key : ExitError
  bad_endpoint : ExitError

unfoldable pub is_unused : Option ℕ → Bool
is_unused none = true
is_unused (some id) = false

-- `UPDATE enroll_tokens SET used_at = now(), node_id = $2 WHERE token_hash = $1`.
unfoldable pub use_token : ℕ → ℕ → List EnrollToken → List EnrollToken
use_token hash id [] = []
use_token hash id (t ∷ ts) =
    (if t.token_hash == hash then record t { used_by = some id } else t) ∷ use_token hash id ts

unfoldable pub enroll_with : ℕ → ℕ → Option EnrollToken → ExitDb → ExitDb × Option ExitError
unfolding is_unused use_token
enroll_with fresh auth none s = (s, some invalid_enroll_token)
enroll_with fresh auth (some t) s =
    if is_unused t.used_by
    then (
      record s {
        tokens = use_token t.token_hash fresh s.tokens;
        exits =
            record { id = fresh; auth_token_hash = auth; last_seen = none; announced = none }
            ∷ s.exits;
      },
      none,
    )
    else (s, some invalid_enroll_token)

module _ (sha256 : ℕ → ℕ) where
  -- The column is the primary key: a token that has been issued before is refused.
  unfoldable pub create_enroll_token : ℕ → ExitDb → ExitDb
  unfolding any
  create_enroll_token fresh s =
      if any (λ (t : EnrollToken). t.token_hash == sha256 fresh) s.tokens
      then s
      else record s { tokens = record { token_hash = sha256 fresh; used_by = none } ∷ s.tokens }

  -- `EnrollNode`, with the id and the auth token of the node.
  unfoldable pub enroll_node : ℕ → ℕ → ℕ → ExitDb → ExitDb × Option ExitError
  unfolding enroll_with find
  enroll_node fresh auth token s =
      enroll_with fresh (sha256 auth)
        (find (λ (t : EnrollToken). t.token_hash == sha256 token) s.tokens) s

  unfoldable pub is_authorized : ℕ → Option ExitNode → Bool
  is_authorized token none = false
  is_authorized token (some n) = n.auth_token_hash == sha256 token

  -- `AuthNode`.
  unfoldable pub auth_node : ℕ → ℕ → ExitDb → Option ExitError
  unfolding is_authorized find
  auth_node id token s =
      if is_authorized token (find (λ (n : ExitNode). n.id == id) s.exits)
      then none
      else some unauthorized

-- An `UPDATE exit_nodes … WHERE id = $1`.
unfoldable pub update_exit : ℕ → (ExitNode → ExitNode) → List ExitNode → List ExitNode
update_exit id f [] = []
update_exit id f (n ∷ ns) = (if n.id == id then f n else n) ∷ update_exit id f ns

-- The `UPDATE` of `Heartbeat`.
unfoldable pub heartbeat_node : ℕ → ℕ → ExitDb → ExitDb
unfolding update_exit
heartbeat_node now id s = record s {
  exits = update_exit id (λ (n : ExitNode). record n { last_seen = some now }) s.exits;
}

module _ (t : WgText) where
  unfoldable pub set_node_wg : ℕ → ℕ → List ℕ → List ℕ → ExitDb → ExitDb × Option ExitError
  unfolding valid_wg_key valid_wg_endpoint update_exit
  set_node_wg now id pubkey endpoint s =
      let key = t.trim pubkey in
      let host = t.trim endpoint in
      if not (valid_wg_key t key)
      then (s, some bad_key)
      else if not (valid_wg_endpoint t host)
      then (s, some bad_endpoint)
      else (
        record s {
          exits =
              update_exit id (λ (n : ExitNode). record n { announced = some (key, host, now) })
                s.exits;
        },
        none,
      )

unfoldable pub clear_node_wg : ℕ → ExitDb → ExitDb
unfolding update_exit
clear_node_wg id s = record s {
  exits = update_exit id (λ (n : ExitNode). record n { announced = none }) s.exits;
}

abbrev pub wg_node_freshness : ℕ
wg_node_freshness = 900

unfoldable pub is_offered : ℕ → Option Announcement → Bool
is_offered now none = false
is_offered now (some (key, endpoint, seen)) =
    not (length endpoint == 0) && ltb now (seen + wg_node_freshness)

-- `WgNodes`; the order by name is left out.
unfoldable pub wg_nodes : ℕ → ExitDb → List ExitNode
unfolding is_offered
wg_nodes now s = keep (λ (n : ExitNode). is_offered now n.announced) s.exits
