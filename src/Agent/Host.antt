-- ===== src/Agent/Host.antt =====
-- What the agent drives and does not implement: the interface `Firewall` of agent/firewall.go over
-- nft, and the file that `withRuntime` of agent/state.go writes. The laws are the documented
-- behaviour: "ApplyAuthorized adds and removes members atomically. Like nft itself it fails (and
-- applies nothing) if a del member is not present".
use fips_exit_gate.Base.{
  ℕ, ◌≡◌, refl, inl, inr, Bool, true, false, not, ◌&&◌, ◌||◌, Option, none, some, List,
  Option-cases,
}
use fips_exit_gate.Base.Sets.{contains, SameMembers}
use fips_exit_gate.Agent.State.{Addr, AcctKey, Runtime, Agent}

-- `none` is an error, after which the world is what it was.
pub record Host (W : Type 0) : Type 0 where
  pub list_authorized : W → Option (List Addr)
  pub apply_authorized : List Addr → List Addr → W → Option W
  pub read_acct : W → Option (List (AcctKey × ℕ))
  pub delete_acct : List AcctKey → W → Option W
  pub write_runtime : Runtime → W → Option W
  -- The live set itself, which the code sees only through `list_authorized`.
  pub members : W → List Addr

pub record IsHost {W : Type 0} (h : Host W) : Type 0 where
  pub list_members :
      (w : W) (l : List Addr) → h.list_authorized w ≡ some l → SameMembers l (h.members w)
  pub apply_members :
      (add del : List Addr) (w w' : W)
      → h.apply_authorized add del w ≡ some w'
      → (a : Addr)
      → contains (h.members w') a
        ≡ ((contains (h.members w) a || contains add a) && not (contains del a))
  pub write_members :
      (r : Runtime) (w w' : W) → h.write_runtime r w ≡ some w' → h.members w' ≡ h.members w
  pub acct_members :
      (ks : List AcctKey) (w w' : W) → h.delete_acct ks w ≡ some w' → h.members w' ≡ h.members w

module _ {W : Type 0} (h : Host W) where
  persist : Runtime → Agent W → Option W → Agent W × Bool
  persist r a none = (record a { rt = r }, false)
  persist r a (some w) = (record a { rt = r; world = w }, true)

  -- `withRuntime`: the change is made in memory, and then written; a failed write leaves the file.
  unfoldable pub with_runtime : (Runtime → Runtime) → Agent W → Agent W × Bool
  unfolding persist
  with_runtime f a = let r = f a.rt in persist r a (h.write_runtime r a.world)

module _ {W : Type 0} (h : Host W) where
  pub rt-with_runtime : (f : Runtime → Runtime) (a : Agent W) → (with_runtime h f a).0.rt ≡ f a.rt
  unfolding with_runtime
  rt-with_runtime f a = elim (Option-cases (h.write_runtime (f a.rt) a.world)) [
    | inl e ↦ rw e
    | inr (w, e) ↦ rw e
  ]

  -- The runtime file is no part of the kernel: whether the write succeeds or not, the set stays.
  pub members-with_runtime :
      IsHost h
      → (f : Runtime → Runtime) (a : Agent W)
      → h.members (with_runtime h f a).0.world ≡ h.members a.world
  unfolding with_runtime
  members-with_runtime laws f a = elim (Option-cases (h.write_runtime (f a.rt) a.world)) [
    | inl e ↦ rw e
    | inr (w, e) ↦ rw e (laws.write_members (f a.rt) a.world w e)
  ]

  pub writes-with_runtime :
      (f : Runtime → Runtime) (a : Agent W)
      → (w : W) × (h.write_runtime (f a.rt) a.world ≡ some w)
      → (with_runtime h f a).1 ≡ true
  unfolding with_runtime
  writes-with_runtime f a (w, e) = rw e

  -- Nothing but the runtime and the world changes.
  pub with_runtime_frame :
      (f : Runtime → Runtime) (a : Agent W)
      → (with_runtime h f a).0
        ≡ record a { rt = (with_runtime h f a).0.rt; world = (with_runtime h f a).0.world }
  unfolding with_runtime
  with_runtime_frame f a = elim (Option-cases (h.write_runtime (f a.rt) a.world)) [
    | inl e ↦ rw e refl
    | inr (w, e) ↦ rw e refl
  ]
