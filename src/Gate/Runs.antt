-- ===== src/Gate/Runs.antt =====
-- Runs of the gate: recomputes and compactions of the backend and syncs of an agent, in any order.
use mathlib.Core.Path.{sym, subst}
use fips_exit_gate.Base.{ℕ, ◌≡◌, Bool, none, arith, if◌then◌else◌}
use fips_exit_gate.Agent.State.{Agent}
use fips_exit_gate.Agent.Host.{Host, IsHost}
use fips_exit_gate.Agent.Sync.{apply_authz}
use fips_exit_gate.Agent.Loop.{Request}
use fips_exit_gate.Store.State.{Authz, Db}
use fips_exit_gate.Store.Authz.{recompute, compact}
use fips_exit_gate.Store.Authz.Log.{max_rev-le}
use fips_exit_gate.Store.Authz.Serves.{Serves, IsPast, Serves-recompute, Serves-compact}
use fips_exit_gate.Api.{write_authz}
use fips_exit_gate.Gate.Mirror.{live, Mirrors, Mirrors-Follower, apply-write_authz}

module _ {W : Type 0} (h : Host W) where
  -- `recomputed`: the other tables have changed in any way, and the set is recomputed, by a clock that
  -- is not behind the log. `trimmed`: old rows of the log are deleted. `synced`: the agent sends a
  -- request, from its cursor or for the full set, and applies the answer. A response that a guard
  -- refuses, and a long poll that ends unanswered, change nothing and are no steps.
  pub data Step : Authz → Agent W → Authz → Agent W → Type 0 where
    recomputed :
        {s s' : Authz} {a : Agent W} (now : ℕ) (db : Db)
        → db.authz ≡ s
        → IsPast now s
        → (recompute now db).0 ≡ s'
        → Step s a s' a
    trimmed : {s s' : Authz} {a : Agent W} (cutoff : ℕ) → compact cutoff s ≡ s' → Step s a s' a
    synced :
        {s : Authz} {a a' : Agent W} (force : Bool) (req : Request)
        → req.rev ≡ (if req.full then 0 else a.rt.authz_rev)
        → apply_authz h (write_authz force s req) a ≡ (a', none)
        → Step s a s a'

  pub data Run (s : Authz) (a : Agent W) : Authz → Agent W → Type 0 where
    start : Run s a s a
    next : {t u : Authz} {b c : Agent W} → Run s a t b → Step t b u c → Run s a u c

  abbrev pub Linked : Authz → Agent W → Type 0
  Linked s a = Serves (live h a) a.rt.authz_rev s

module _ {W : Type 0} (h : Host W) (laws : IsHost h) where
  Step-Linked : {s s' : Authz} {a a' : Agent W} → Step h s a s' a' → Linked h s a → Linked h s' a'
  Step-Linked {a = a} (recomputed now db at settled became) f =
      subst (λ t. Linked h t a) became
        (Serves-recompute (live h a) a.rt.authz_rev now db
          (subst (λ t. IsPast now t) (sym at) settled) (subst (λ t. Linked h t a) (sym at) f))
  Step-Linked {s = s} {a = a} (trimmed cutoff became) f =
      subst (λ t. Linked h t a) became (Serves-compact (live h a) a.rt.authz_rev cutoff s f)
  Step-Linked {s = s} {a = a} {a' = a'} (synced force req asked p) f =
      let m = apply-write_authz h laws force s a req f.tracks asked p in
      record {
        log = f.log;
        dated = f.dated;
        past = omega (arith, m.revision, max_rev-le s.last_rev s.revisions f.log);
        tracks = λ _. Mirrors-Follower h a' s m;
      }

  -- Along every run the log can take the agent to the current set, if it reaches back to its cursor.
  Run-Linked :
      {s : Authz} {a : Agent W} {s' : Authz} {a' : Agent W}
      → Linked h s a
      → Run h s a s' a'
      → Linked h s' a'
  Run-Linked f start = f
  Run-Linked f (next r st) = Step-Linked st (Run-Linked f r)

  -- However recomputes, compactions and syncs have interleaved since the agent last agreed with the
  -- log, where the log's dates go with its numbers and no recompute's clock is behind them: the next
  -- answer that the agent applies makes its kernel set the authorized set, at the backend's revision.
  pub Run-Mirrors :
      {s s' : Authz} {a b a' : Agent W} (force : Bool) (req : Request)
      → Linked h s a
      → Run h s a s' b
      → req.rev ≡ (if req.full then 0 else b.rt.authz_rev)
      → apply_authz h (write_authz force s' req) b ≡ (a', none)
      → Mirrors h a' s'
  Run-Mirrors {s' = s'} {b = b} force req f r asked p =
      apply-write_authz h laws force s' b req (Run-Linked f r).tracks asked p
