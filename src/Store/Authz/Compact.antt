-- ===== src/Store/Authz/Compact.antt =====
-- `CompactAuthzRevisions`: what the answers to the agents lose, and what they do not.
use fips_exit_gate.Base.{
  ℕ, ◌+◌, ◌≤◌, ◌<◌, ◌≡◌, refl, ap, Bool, false, not, ◌&&◌, List, [], ◌∷◌, arith, inl, inr, ltb, All,
  keep, Bool-cases, Bool, All-keep,
}
use fips_exit_gate.Store.State.{Revision, Authz}
use fips_exit_gate.Store.Authz.{max_rev, min_rev, since, compact}
use fips_exit_gate.Store.Authz.Log.{Tracks}

-- A log in the order of its numbers, whose dates never go back.
abbrev pub IsDated : List Revision → Type 0
IsDated [] = Unit
IsDated (r ∷ rs) =
    All (λ (q : Revision). (r.rev < q.rev) × (r.created_at ≤ q.created_at)) rs × IsDated rs

-- What the statement does not delete.
abbrev kept : ℕ → ℕ → List Revision → List Revision
kept cutoff newest rs =
    keep (λ (r : Revision). not (ltb r.created_at cutoff && ltb r.rev newest)) rs

-- Behind a row that is kept, every row is kept.
kept_all :
    (cutoff newest rev date : ℕ) (rs : List Revision)
    → (ltb date cutoff && ltb rev newest) ≡ false
    → All (λ (q : Revision). (rev < q.rev) × (date ≤ q.created_at)) rs
    → kept cutoff newest rs ≡ rs
kept_all cutoff newest rev date [] h u = refl
kept_all cutoff newest rev date (q ∷ rs) h ((later, after), u) =
    let stays : (ltb q.created_at cutoff && ltb q.rev newest) ≡ false = ground arith in
    rw stays (ap (◌∷◌ q) (kept_all cutoff newest rev date rs h u))

min_rev-gt :
    (n : ℕ) (q : Revision) (rs : List Revision)
    → n < q.rev
    → All (λ (p : Revision). (n < p.rev)) rs
    → n < min_rev (q ∷ rs)
unfolding min_rev
min_rev-gt n q [] h u = h
min_rev-gt n q (p ∷ rs) h (g, u) = ground (arith, min_rev-gt n p rs g u)

All-later :
    (n d : ℕ) (rs : List Revision)
    → All (λ (q : Revision). (n < q.rev) × (d ≤ q.created_at)) rs
    → All (λ (q : Revision). (n < q.rev)) rs
All-later n d [] u = tt
All-later n d (q ∷ rs) ((h, g), u) = (h, All-later n d rs u)

-- Rows that come behind a deleted one keep the oldest number above it.
kept-min_rev :
    (cutoff newest n : ℕ) (rs : List Revision)
    → n < newest
    → newest ≤ max_rev rs
    → All (λ (q : Revision). (n < q.rev)) rs
    → IsDated rs
    → n < min_rev (kept cutoff newest rs)
unfolding max_rev
kept-min_rev cutoff newest n [] h top u d = absurd (omega (arith, h, top))
kept-min_rev cutoff newest n (q ∷ rs) h top (g, u) (later, d) =
    elim (Bool-cases (ltb q.created_at cutoff && ltb q.rev newest)) [
      | inl gone ↦ rw gone (kept-min_rev cutoff newest n rs h (ground arith) u d)
      | inr stays ↦
          rw (stays, kept_all cutoff newest q.rev q.created_at rs stays later)
            (min_rev-gt n q rs g u)
    ]

kept-since :
    (cutoff newest cursor : ℕ) (rs : List Revision)
    → newest ≤ max_rev rs
    → IsDated rs
    → min_rev (kept cutoff newest rs) ≤ cursor + 1
    → since cursor (kept cutoff newest rs) ≡ since cursor rs
unfolding since max_rev
kept-since cutoff newest cursor [] top d low = refl
kept-since cutoff newest cursor (r ∷ rs) top (later, d) low =
    elim (Bool-cases (ltb r.created_at cutoff && ltb r.rev newest)) [
      | inr stays ↦ rw (stays, kept_all cutoff newest r.rev r.created_at rs stays later) refl
      | inl gone ↦
          let low' : min_rev (kept cutoff newest rs) ≤ cursor + 1 = rw gone at low in
          let top' : newest ≤ max_rev rs = ground arith in
          let above =
            kept-min_rev cutoff newest r.rev rs (ground arith) top'
              (All-later r.rev r.created_at rs later) d in
          let seen : ltb cursor r.rev ≡ false = ground arith in
          rw (gone, seen) (kept-since cutoff newest cursor rs top' d low')
    ]

-- A compaction leaves what an agent within the log's reach has to replay.
pub compact-Tracks :
    (live : ℕ → Bool) (cutoff cursor : ℕ) (s : Authz)
    → IsDated s.revisions
    → min_rev (compact cutoff s).revisions ≤ cursor + 1
    → Tracks live cursor s
    → Tracks live cursor (compact cutoff s)
unfolding compact
compact-Tracks live cutoff cursor s dated reached t a =
    rw (kept-since cutoff (max_rev s.revisions) cursor s.revisions (omega arith) dated reached)
      (t a)

min_rev-head : (r : Revision) (rs : List Revision) → min_rev (r ∷ rs) ≤ r.rev
unfolding min_rev
min_rev-head r [] = omega arith
min_rev-head r (q ∷ rs) = ground arith

-- A compaction never makes the log reach further back.
pub min_rev-kept :
    (cutoff newest : ℕ) (rs : List Revision)
    → newest ≤ max_rev rs
    → IsDated rs
    → min_rev rs ≤ min_rev (kept cutoff newest rs)
unfolding max_rev
min_rev-kept cutoff newest [] top d = omega arith
min_rev-kept cutoff newest (r ∷ rs) top (later, d) =
    elim (Bool-cases (ltb r.created_at cutoff && ltb r.rev newest)) [
      | inr stays ↦
          rw (stays, kept_all cutoff newest r.rev r.created_at rs stays later) (omega arith)
      | inl gone ↦
          let above =
            kept-min_rev cutoff newest r.rev rs (ground arith) (ground arith)
              (All-later r.rev r.created_at rs later) d in
          rw gone (omega (arith, above, min_rev-head r rs))
    ]

pub IsDated-keep : (p : Revision → Bool) (rs : List Revision) → IsDated rs → IsDated (keep p rs)
IsDated-keep p [] d = tt
IsDated-keep p (r ∷ rs) (later, d) = elim (Bool-cases (p r)) [
  | inl stays ↦ rw stays (All-keep _ p rs later, IsDated-keep p rs d)
  | inr gone ↦ rw gone (IsDated-keep p rs d)
]
