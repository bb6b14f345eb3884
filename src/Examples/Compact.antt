-- ===== src/Examples/Compact.antt =====
-- A compaction under an agent that has the first revision, and one of a log whose dates go back.
use fips_exit_gate.Base.{ℕ, ◌≡◌, refl, List, [], ◌∷◌}
use fips_exit_gate.Base.Assoc.{insert}
use fips_exit_gate.Store.State.{add, del, Authz}
use fips_exit_gate.Store.Authz.{
  max_rev, min_rev, since, final_ops, added, deleted, delta, delta_since, compact,
}

-- 33 comes and goes.
abbrev timed_log : Authz
timed_log = record {
  current = (31, 1) ∷ [];
  revisions =
      record { rev = 1; op = add; addr = 31; account = 1; created_at = 10 }
      ∷ record { rev = 2; op = add; addr = 33; account = 1; created_at = 20 }
      ∷ record { rev = 3; op = del; addr = 33; account = 1; created_at = 30 }
      ∷ [];
  last_rev = 3;
}

abbrev none_added : List (ℕ × ℕ)
none_added = []

still_served : delta_since 1 (compact 15 timed_log) ≡ delta none_added (33 ∷ []) 3
unfolding delta_since compact min_rev max_rev final_ops since added deleted insert
still_served = refl

-- 31 goes in a transaction that began before that of the revision in front of it.
abbrev undated : Authz
undated = record {
  current = (34, 1) ∷ (33, 1) ∷ [];
  revisions =
      record { rev = 1; op = add; addr = 31; account = 1; created_at = 10 }
      ∷ record { rev = 2; op = add; addr = 33; account = 1; created_at = 21 }
      ∷ record { rev = 3; op = del; addr = 31; account = 1; created_at = 20 }
      ∷ record { rev = 4; op = add; addr = 34; account = 1; created_at = 30 }
      ∷ [];
  last_rev = 4;
}

whole : delta_since 1 undated ≡ delta ((33, 1) ∷ (34, 1) ∷ []) (31 ∷ []) 4
unfolding delta_since min_rev max_rev final_ops since added deleted insert
whole = refl

lost : delta_since 1 (compact 21 undated) ≡ delta ((33, 1) ∷ (34, 1) ∷ []) [] 4
unfolding delta_since compact min_rev max_rev final_ops since added deleted insert
lost = refl
