-- ===== src/Examples/Kernel.antt =====
-- A host that can be run: the two nft sets and the runtime file, with nft's documented behaviour.
use fips_exit_gate.Base.{
  ℕ, ◌≡◌, ◌∙◌, refl, sym, ap, Bool, true, false, not, ◌&&◌, none, some, List, [], ◌∷◌, ◌++◌, arith,
  if◌then◌else◌, some_eq, Bool-cases, inl, inr,
}
use fips_exit_gate.Base.Assoc.{erase}
use fips_exit_gate.Base.Sets.{contains, contains-append, contains-keep, without}
use fips_exit_gate.Agent.State.{Addr, AcctKey, key_eq, Runtime, Agent}
use fips_exit_gate.Agent.Host.{Host, IsHost}
use fips_exit_gate.Agent.Sync.Progress.{IsReliable}

pub record Kernel : Type 0 where
  pub authorized : List Addr
  pub acct : List (AcctKey × ℕ)
  pub disk : Runtime

abbrev pub all_live : List Addr → List Addr → Bool
all_live live [] = true
all_live live (d ∷ del) = contains live d && all_live live del

abbrev pub erase_all : List AcctKey → List (AcctKey × ℕ) → List (AcctKey × ℕ)
erase_all [] m = m
erase_all (k ∷ ks) m = erase_all ks (erase k m)

abbrev pub kernel_host : Host Kernel
kernel_host = record {
  list_authorized = λ w. some w.authorized;
  apply_authorized = λ add del w.
      if all_live w.authorized del
      then some (record w { authorized = without del (w.authorized ++ add) })
      else none;
  read_acct = λ w. some w.acct;
  delete_acct = λ ks w. some (record w { acct = erase_all ks w.acct });
  write_runtime = λ r w. some (record w { disk = r });
  members = λ w. w.authorized;
}

apply_kernel :
    (add del : List Addr) (w w' : Kernel)
    → kernel_host.apply_authorized add del w ≡ some w'
    → without del (w.authorized ++ add) ≡ w'.authorized
apply_kernel add del w w' e = elim (Bool-cases (all_live w.authorized del)) [
  | inl y ↦ ap (λ (k : Kernel). k.authorized) (some_eq (rw y at e))
  | inr n ↦ cc (rw n at e)
]

all_live_lem :
    (live del : List Addr)
    → ((x : Addr) → contains del x ≡ true → contains live x ≡ true)
    → all_live live del ≡ true
unfolding contains
all_live_lem live [] h = refl
all_live_lem live (d ∷ del) h =
    rw (h d (ground arith)) (all_live_lem live del (λ x c. h x (ground arith)))

pub kernel_laws : IsHost kernel_host
kernel_laws = record {
  list_members = λ w l e x. ap (λ (m : List ℕ). contains m x) (sym (some_eq e));
  apply_members = λ add del w w' e x.
      ap (λ (m : List ℕ). contains m x) (sym (apply_kernel add del w w' e))
      ∙ contains-keep (λ a. not (contains del a)) (w.authorized ++ add) x
      ∙ ap (λ b. b && not (contains del x)) (contains-append w.authorized add x);
  write_members = λ r w w' e. ap (λ (k : Kernel). k.authorized) (sym (some_eq e));
  acct_members = λ ks w w' e. ap (λ (k : Kernel). k.authorized) (sym (some_eq e));
}

pub kernel_works : IsReliable kernel_host
kernel_works = record {
  lists = λ w. (w.authorized, refl);
  applies = λ add del w h. (
    record w { authorized = without del (w.authorized ++ add) },
    rw (all_live_lem w.authorized del h) refl,
  );
  writes = λ r w. (record w { disk = r }, refl);
}

-- An agent with the default settings.
abbrev pub agent_with : List Addr → Runtime → Agent Kernel
agent_with live rt = record {
  world = record { authorized = live; acct = []; disk = rt };
  rt = rt;
  cfg = record { usage_interval_s = 30; grace_minutes = 240; services = [] };
  services = [];
  last_authz_ok = 0;
  started_at = 0;
  force_resync = false;
  full_sync_every = 300_000_000_000;
  mass_revoke_min = 50;
  allow_mass_revoke = false;
  fail_closed_after_grace = true;
  buffer_cap = 2;
}
