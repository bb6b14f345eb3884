-- ===== src/Store/Exits/Enrolled.antt =====
-- The operations on the exits, in any order.
use fips_exit_gate.Base.{
  ℕ, suc, ◌≡◌, refl, ◌∙◌, sym, ap, Bool, true, false, Option, none, some, List, [], ◌∷◌, arith, inl,
  inr, ◌==◌, if◌then◌else◌, length, All, Bool-cases, ==_iff, some_eq,
}
use fips_exit_gate.Store.Authz.{any}
use fips_exit_gate.Store.Whitelist.{find}
use fips_exit_gate.Store.Keys.{WgText, valid_wg_key, valid_wg_endpoint}
use fips_exit_gate.Store.Exits.{
  EnrollToken, Announcement, ExitNode, ExitDb, is_unused, use_token, enroll_with,
  create_enroll_token, enroll_node, update_exit, heartbeat_node, set_node_wg, clear_node_wg,
}

abbrev pub used : List EnrollToken → ℕ
used [] = 0
used (t ∷ ts) = let n = used ts in if is_unused t.used_by then n else suc n

abbrev pub has_hash : ℕ → List EnrollToken → Bool
has_hash h ts = any (λ (t : EnrollToken). t.token_hash == h) ts

abbrev pub IsKeyed : List EnrollToken → Type 0
IsKeyed [] = Unit
IsKeyed (t ∷ ts) = (has_hash t.token_hash ts ≡ false) × IsKeyed ts

module _ (t : WgText) where
  -- What a node has announced has passed the checks.
  abbrev pub IsChecked : Option Announcement → Type 0
  IsChecked none = Unit
  IsChecked (some (key, endpoint, seen)) =
      (valid_wg_key t key ≡ true) × (valid_wg_endpoint t endpoint ≡ true)

  pub record IsExits (s : ExitDb) : Type 0 where
    pub counted : length s.exits ≡ used s.tokens
    pub keyed : IsKeyed s.tokens
    pub checked : All (λ (n : ExitNode). IsChecked n.announced) s.exits

has_hash-use_token :
    (k h id : ℕ) (ts : List EnrollToken) → has_hash k (use_token h id ts) ≡ has_hash k ts
unfolding any use_token
has_hash-use_token k h id [] = refl
has_hash-use_token k h id (t ∷ ts) = ground (arith, has_hash-use_token k h id ts)

use_token-IsKeyed : (h id : ℕ) (ts : List EnrollToken) → IsKeyed ts → IsKeyed (use_token h id ts)
unfolding use_token
use_token-IsKeyed h id [] u = tt
use_token-IsKeyed h id (t ∷ ts) (new, u) =
    let same = has_hash-use_token t.token_hash h id ts in
    elim (Bool-cases (t.token_hash == h)) [
      | inl y ↦ rw y (same ∙ new, use_token-IsKeyed h id ts u)
      | inr n ↦ rw n (same ∙ new, use_token-IsKeyed h id ts u)
    ]

used-other :
    (h id : ℕ) (ts : List EnrollToken) → has_hash h ts ≡ false → used (use_token h id ts) ≡ used ts
unfolding any use_token
used-other h id [] e = refl
used-other h id (t ∷ ts) e = ground (arith, used-other h id ts)

-- Using a token that is found unused makes one more used token.
used-use_token :
    (h id : ℕ) (t : EnrollToken) (ts : List EnrollToken)
    → IsKeyed ts
    → find (λ (x : EnrollToken). x.token_hash == h) ts ≡ some t
    → is_unused t.used_by ≡ true
    → (t.token_hash ≡ h) × (used (use_token h id ts) ≡ suc (used ts))
unfolding find use_token is_unused
used-use_token h id t [] u at free = cc
used-use_token h id t (x ∷ ts) (new, u) at free = elim (Bool-cases (x.token_hash == h)) [
  | inl here ↦
      let same : x ≡ t = some_eq (rw here at at) in
      let key : x.token_hash ≡ h = (==_iff x.token_hash h).0 here in
      let free' : is_unused x.used_by ≡ true = rw same free in
      let others : used (use_token h id ts) ≡ used ts = used-other h id ts (rw key at new) in
      (
        ap (λ (y : EnrollToken). y.token_hash) (sym same) ∙ key,
        rw here (ground (arith, others, free')),
      )
  | inr there ↦
      let (key, more) = used-use_token h id t ts u (rw there at at) free in
      (key, rw there (ground (arith, more)))
]

All-update :
    (P : ExitNode → Type 0) (id : ℕ) (f : ExitNode → ExitNode) (ns : List ExitNode)
    → ((n : ExitNode) → P n → P (f n))
    → All P ns
    → All P (update_exit id f ns)
unfolding update_exit
All-update P id f [] step h = tt
All-update P id f (n ∷ ns) step (h, hs) = elim (Bool-cases (n.id == id)) [
  | inl y ↦ rw y (step n h, All-update P id f ns step hs)
  | inr m ↦ rw m (h, All-update P id f ns step hs)
]

length-update :
    (id : ℕ) (f : ExitNode → ExitNode) (ns : List ExitNode)
    → length (update_exit id f ns) ≡ length ns
unfolding update_exit
length-update id f [] = refl
length-update id f (n ∷ ns) = ap (λ k. suc k) (length-update id f ns)

module _ (t : WgText) where
  updated-IsExits :
      (id : ℕ) (f : ExitNode → ExitNode) (s : ExitDb)
      → ((n : ExitNode) → IsChecked t n.announced → IsChecked t (f n).announced)
      → IsExits t s
      → IsExits t (record s { exits = update_exit id f s.exits })
  updated-IsExits id f s step v = record {
    counted = length-update id f s.exits ∙ v.counted;
    keyed = v.keyed;
    checked = All-update _ id f s.exits step v.checked;
  }

  enroll_with-IsExits :
      (fresh auth hash : ℕ) (o : Option EnrollToken) (s : ExitDb)
      → find (λ (x : EnrollToken). x.token_hash == hash) s.tokens ≡ o
      → IsExits t s
      → IsExits t (enroll_with fresh auth o s).0
  unfolding enroll_with
  enroll_with-IsExits fresh auth hash none s at v = v
  enroll_with-IsExits fresh auth hash (some x) s at v = elim (Bool-cases (is_unused x.used_by)) [
    | inl free ↦
        let (key, one_more) = used-use_token hash fresh x s.tokens v.keyed at free in
        rw free (record {
          counted =
              ap (λ k. suc k) v.counted
              ∙ sym one_more
              ∙ ap (λ k. used (use_token k fresh s.tokens)) (sym key);
          keyed = use_token-IsKeyed x.token_hash fresh s.tokens v.keyed;
          checked = (tt, v.checked);
        })
    | inr taken ↦ rw taken v
  ]

module _ (t : WgText) (sha256 : ℕ → ℕ) where
  -- Calls with any arguments, on any state, whether they succeed or fail.
  pub data ExitStep (s : ExitDb) : ExitDb → Type 0 where
    token_issued : (fresh : ℕ) → ExitStep s (create_enroll_token sha256 fresh s)
    enrolled : (fresh auth token : ℕ) → ExitStep s (enroll_node sha256 fresh auth token s).0
    beaten : (now id : ℕ) → ExitStep s (heartbeat_node now id s)
    announces :
        (now id : ℕ) (key endpoint : List ℕ) → ExitStep s (set_node_wg t now id key endpoint s).0
    cleared : (id : ℕ) → ExitStep s (clear_node_wg id s)

  pub data ExitRun : ExitDb → Type 0 where
    no_exits : ExitRun (record { tokens = []; exits = [] })
    then_exit : {s s' : ExitDb} → ExitRun s → ExitStep s s' → ExitRun s'

  set_node_wg-IsExits :
      (now id : ℕ) (key endpoint : List ℕ) (s : ExitDb)
      → IsExits t s
      → IsExits t (set_node_wg t now id key endpoint s).0
  unfolding set_node_wg
  set_node_wg-IsExits now id key endpoint s v = elim (Bool-cases (valid_wg_key t (t.trim key))) [
    | inr bad ↦ rw bad v
    | inl good ↦ elim (Bool-cases (valid_wg_endpoint t (t.trim endpoint))) [
      | inr bad ↦ rw (good, bad) v
      | inl fine ↦ rw (good, fine) (updated-IsExits t id _ s (λ n h. (good, fine)) v)
    ]
  ]

  ExitStep-IsExits : {s s' : ExitDb} → ExitStep s s' → IsExits t s → IsExits t s'
  unfolding create_enroll_token enroll_node heartbeat_node clear_node_wg
  ExitStep-IsExits {s = s} (token_issued fresh) v =
      elim (Bool-cases (has_hash (sha256 fresh) s.tokens)) [
        | inl again ↦ rw again v
        | inr new ↦ rw new (record {
          counted = unfold is_unused in v.counted;
          keyed = (new, v.keyed);
          checked = v.checked;
        })
      ]
  ExitStep-IsExits {s = s} (enrolled fresh auth token) v =
      enroll_with-IsExits t fresh (sha256 auth) (sha256 token) _ s refl v
  ExitStep-IsExits {s = s} (beaten now id) v = updated-IsExits t id _ s (λ n h. h) v
  ExitStep-IsExits {s = s} (announces now id key endpoint) v =
      set_node_wg-IsExits now id key endpoint s v
  ExitStep-IsExits {s = s} (cleared id) v = updated-IsExits t id _ s (λ n h. tt) v

  -- However tokens have been issued and used, and nodes have announced themselves: there are as many
  -- nodes as used tokens, no token is there twice, and every key and endpoint that a node has
  -- announced has passed `ValidWgKey` and `validWgEndpoint`.
  pub ExitRun-IsExits : {s : ExitDb} → ExitRun s → IsExits t s
  ExitRun-IsExits no_exits = record { counted = refl; keyed = tt; checked = tt }
  ExitRun-IsExits (then_exit r st) = ExitStep-IsExits st (ExitRun-IsExits r)
