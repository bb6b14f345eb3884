-- ===== src/Examples/Backend.antt =====
-- Witnesses for the backend's authorized set, and for an agent that follows it.
use fips_exit_gate.Base.{
  ℕ, ◌≡◌, ◌↔◌, refl, Bool, true, false, not, ◌&&◌, ◌||◌, none, some, List, [], ◌∷◌, arith,
}
use fips_exit_gate.Base.Equality.{nat_eq}
use fips_exit_gate.Base.Assoc.{lookup, keys, insert}
use fips_exit_gate.Base.Sets.{contains, to_set}
use fips_exit_gate.Agent.State.{Agent, clean_runtime}
use fips_exit_gate.Agent.Sync.{apply_authz}
use fips_exit_gate.Agent.Loop.{Request}
use fips_exit_gate.Store.State.{
  guest, owner, volume, time, add, del, settled, pending, Authz, Db, new_authz,
}
use fips_exit_gate.Store.Authz.{
  recompute, is_member, delta_since, max_rev, since, final_ops, added, deleted, min_rev, compact,
}
use fips_exit_gate.Store.Authz.Log.{Tracks, live_after}
use fips_exit_gate.Store.Authz.Recompute.{Follows}
use fips_exit_gate.Store.Authz.Paid.{IsPaid, recompute-IsPaid}
use fips_exit_gate.Store.Authz.Delta.{delta_since-Tracks}
use fips_exit_gate.Api.{write_authz}
use fips_exit_gate.Gate.Mirror.{Follower, Mirrors, apply-write_authz}
use fips_exit_gate.Gate.Runs.{recomputed, trimmed, Run, start, next, Linked, Run-Mirrors}
use fips_exit_gate.Examples.Kernel.{Kernel, kernel_host, kernel_laws, agent_with}

-- Account 1 pays, with a guest; account 2 has used up its volume.
abbrev pub shop : Db
shop = record {
  accounts =
      record { id = 1; npub = 21; fips_addr = 31; active = true }
      ∷ record { id = 2; npub = 22; fips_addr = 32; active = true }
      ∷ [];
  whitelist =
      record {
        id = 51;
        account_id = 1;
        npub = 21;
        fips_addr = 31;
        role = owner;
        enabled = true;
        pending = false;
      }
      ∷ record {
        id = 52;
        account_id = 2;
        npub = 22;
        fips_addr = 32;
        role = owner;
        enabled = true;
        pending = false;
      }
      ∷ record {
        id = 53;
        account_id = 1;
        npub = 23;
        fips_addr = 33;
        role = guest;
        enabled = true;
        pending = false;
      }
      ∷ [];
  entitlements =
      record {
        id = 61;
        account_id = 1;
        purchase_id = some 71;
        kind = time;
        volume_bytes = 0;
        volume_used = 0;
        starts_at = 10;
        expires_at = 90;
      }
      ∷ record {
        id = 62;
        account_id = 2;
        purchase_id = some 72;
        kind = volume;
        volume_bytes = 9;
        volume_used = 9;
        starts_at = 10;
        expires_at = 90;
      }
      ∷ [];
  services = record { id = 81; key = 1; rate_ppm = 1_500_000; enabled = true } ∷ [];
  reports = [];
  samples = [];
  packages = record { id = 91; kind = time; volume_bytes = 0; validity_s = 86400 } ∷ [];
  purchases =
      record {
        id = 71;
        account_id = 1;
        package_id = 91;
        invoice_id = some 701;
        status = settled;
        settled_at = some 10;
      }
      ∷ record {
        id = 72;
        account_id = 2;
        package_id = 91;
        invoice_id = some 702;
        status = settled;
        settled_at = some 10;
      }
      ∷ record {
        id = 73;
        account_id = 2;
        package_id = 91;
        invoice_id = some 703;
        status = pending;
        settled_at = none;
      }
      ∷ [];
  authz = new_authz;
}

recompute-IsPaid_example : (is_member 33 (recompute 20 shop).0.current ≡ true) ↔ IsPaid 20 shop 33
recompute-IsPaid_example = recompute-IsPaid 20 shop 33

abbrev nobody : ℕ → Bool
nobody a = false

fresh : Follows nobody 0 new_authz
unfolding since live_after is_member lookup
fresh = record { log = tt; past = omega arith; tracks = λ a. refl }

-- The log after 33 came and went, seen by an agent that has the first revision.
abbrev pub gone : Authz
gone = record {
  current = (31, 1) ∷ [];
  revisions =
      record { rev = 1; op = add; addr = 31; account = 1; created_at = 20 }
      ∷ record { rev = 2; op = add; addr = 33; account = 1; created_at = 20 }
      ∷ record { rev = 3; op = del; addr = 33; account = 1; created_at = 30 }
      ∷ [];
  last_rev = 3;
}

abbrev only_first : ℕ → Bool
only_first a = contains (31 ∷ []) a

gone_tracked : Tracks only_first 1 gone
unfolding since live_after is_member lookup contains
gone_tracked a = ground arith

abbrev no_adds : List (ℕ × ℕ)
no_adds = []

delta_since-Tracks_example :
    ((a : ℕ)
      → ((only_first a || contains (keys no_adds) a) && not (contains (33 ∷ []) a && only_first a))
        ≡ is_member a gone.current)
    × (3 ≡ max_rev gone.revisions)
    × Tracks (λ a. is_member a gone.current) 3 gone
delta_since-Tracks_example =
    delta_since-Tracks only_first 1 gone no_adds (33 ∷ []) 3 gone_tracked
      (unfold delta_since min_rev max_rev final_ops since added deleted insert in refl)

-- The agent of that cursor, and the answer that it applies.
abbrev follower : Agent Kernel
follower = agent_with (31 ∷ []) (record (clean_runtime false) { authz_rev = 1 })

abbrev poll : Request
poll = record { rev = 1; full = false }

abbrev caught_up : Agent Kernel
caught_up = (apply_authz kernel_host (write_authz false gone poll) follower).0

caught_up_applied :
    apply_authz kernel_host (write_authz false gone poll) follower ≡ (caught_up, none)
unfolding apply_authz write_authz delta_since min_rev max_rev final_ops since added deleted contains
    to_set insert
caught_up_applied = refl

follower_tracks : Follower kernel_host follower gone
follower_tracks = gone_tracked

apply-write_authz_example : Mirrors kernel_host caught_up gone
apply-write_authz_example =
    apply-write_authz kernel_host kernel_laws false gone follower poll {a' = caught_up}
      (λ reached. follower_tracks) refl caught_up_applied

-- A new agent, a recompute, a compaction, and the agent's first pull.
abbrev newborn : Agent Kernel
newborn = agent_with [] (clean_runtime false)

abbrev pull : Request
pull = record { rev = 0; full = true }

abbrev stocked : Authz
stocked = (recompute 20 shop).0

abbrev cut : Authz
cut = compact 30 stocked

abbrev in_sync : Agent Kernel
in_sync = (apply_authz kernel_host (write_authz false cut pull) newborn).0

pull_applied : apply_authz kernel_host (write_authz false cut pull) newborn ≡ (in_sync, none)
unfolding apply_authz write_authz recompute contains to_set lookup compact
pull_applied = refl

linked : Linked kernel_host new_authz newborn
unfolding since live_after is_member lookup contains
linked = record { log = tt; dated = tt; past = omega arith; tracks = λ reached a. refl }

recompute_and_cut : Run kernel_host new_authz newborn cut newborn
recompute_and_cut = next (next start (recomputed 20 shop refl tt refl)) (trimmed 30 refl)

Run-Mirrors_example : Mirrors kernel_host in_sync cut
Run-Mirrors_example =
    Run-Mirrors kernel_host kernel_laws {s = new_authz} {s' = cut} {a = newborn} {b = newborn}
      {a' = in_sync} false pull linked recompute_and_cut refl pull_applied
