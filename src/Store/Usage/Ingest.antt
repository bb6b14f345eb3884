-- ===== src/Store/Usage/Ingest.antt =====
-- `IngestUsage`: replays, revocations, and the bounds that every report keeps.
use fips_exit_gate.Base.{
  ℕ, ◌≡◌, ◌∙◌, ◌↔◌, refl, sym, ap, Bool, true, false, not, ◌&&◌, ◌||◌, Option, none, some, List, [],
  ◌∷◌, ◌++◌, arith, ◌==◌, ltb, if_cases, and_left, and_right,
}
use fips_exit_gate.Base.Sets.{contains}
use fips_exit_gate.Store.State.{Entitlement, ServiceRow, ReportRow, Authz, Db}
use fips_exit_gate.Store.Authz.{any, is_member, recompute}
use fips_exit_gate.Store.Authz.Recompute.{recompute-desired}
use fips_exit_gate.Store.Authz.Paid.{IsPaid, recompute-IsPaid}
use fips_exit_gate.Store.Usage.{
  SampleInput, ReportInput, weigh, attribute, service_meta, clamp, bill, ingest_sample,
  ingest_samples, is_duplicate, record_report, ingest_usage,
}
use fips_exit_gate.Store.Usage.Consume.{IsKeyed, IsWithin}
use fips_exit_gate.Store.Usage.Charge.{consume_volume-Charged}

module _ (now report : ℕ) where
  reports-ingest_samples :
      (smps : List SampleInput) (db : Db) → (ingest_samples now report smps db).reports ≡ db.reports
  unfolding ingest_samples
  reports-ingest_samples [] db = refl
  reports-ingest_samples (smp ∷ smps) db =
      reports-ingest_samples smps (ingest_sample now report smp db)

  authz-ingest_samples :
      (smps : List SampleInput) (db : Db) → (ingest_samples now report smps db).authz ≡ db.authz
  unfolding ingest_samples
  authz-ingest_samples [] db = refl
  authz-ingest_samples (smp ∷ smps) db = authz-ingest_samples smps (ingest_sample now report smp db)

any-append {ℓ} :
    {A : Type ℓ} (p : A → Bool) (xs ys : List A) → any p (xs ++ ys) ≡ (any p xs || any p ys)
unfolding any
any-append p [] ys = refl
any-append p (x ∷ xs) ys = ground (arith, any-append p xs ys)

any-append_left {ℓ} :
    {A : Type ℓ} (p : A → Bool) (xs ys : List A) → any p xs ≡ true → any p (xs ++ ys) ≡ true
any-append_left p xs ys h = any-append p xs ys ∙ ap (λ b. b || any p ys) h

duplicate_ignored :
    (now later node : ℕ) (q : ReportInput) (db : Db)
    → is_duplicate q.report_id db ≡ true
    → ingest_usage now later node q db ≡ (db, [])
unfolding ingest_usage
duplicate_ignored now later node q db e = rw e refl

-- The addresses that a recompute returns.
revoked_iff :
    (now : ℕ) (db : Db) (a : ℕ)
    → (contains (recompute now db).1 a ≡ true)
      ↔ ((is_member a db.authz.current ≡ true) × ¬ IsPaid now db a)
revoked_iff now db a =
    let (_, out) = recompute-desired now db a in
    let paid = recompute-IsPaid now db a in
    let was = is_member a db.authz.current in
    let is = is_member a (recompute now db).0.current in
    (
      λ c.
          let both : (was && not is) ≡ true = sym out ∙ c in
          (and_left was (not is) both, λ p. not_both is (paid.1 p) (and_right was (not is) both)),
      λ (w, unpaid). out ∙ rw w (lost is (λ p. unpaid (paid.0 p))),
    )
  where
    not_both : (b : Bool) → b ≡ true → not b ≡ true → ⊥
    not_both b p q = cc

    lost : (b : Bool) → ¬ (b ≡ true) → not b ≡ true
    lost true p = elim (p refl) [ ]
    lost false p = refl

-- Reports that are ingested one after the other.
pub data Ingested (db : Db) : Db → Type 0 where
  no_report : Ingested db db
  then_report :
      {db' : Db} (now later node : ℕ) (r : ReportInput)
      → Ingested db db'
      → Ingested db (ingest_usage now later node r db').0

-- A report that has been stored stays.
is_duplicate_stays :
    (id now later node : ℕ) (r : ReportInput) (db : Db)
    → is_duplicate id db ≡ true
    → is_duplicate id (ingest_usage now later node r db).0 ≡ true
unfolding ingest_usage
is_duplicate_stays id now later node r db h =
    if_cases (λ (p : Db × List ℕ). is_duplicate id p.0 ≡ true) (is_duplicate r.report_id db)
      (λ _. h)
      (λ _.
        unfold is_duplicate record_report in
        ap (any (λ (q : ReportRow). q.id == id))
          (reports-ingest_samples now r.report_id r.samples _)
        ∙ any-append_left (λ (q : ReportRow). q.id == id) db.reports _ h)

is_duplicate-Ingested :
    (id : ℕ) {db db' : Db}
    → Ingested db db'
    → is_duplicate id db ≡ true
    → is_duplicate id db' ≡ true
is_duplicate-Ingested id no_report h = h
is_duplicate-Ingested id (then_report {db' = db'} now later node r since) h =
    is_duplicate_stays id now later node r db' (is_duplicate-Ingested id since h)

module _ (now node : ℕ) (r : ReportInput) (db : Db) where
  is_duplicate-record_report : is_duplicate r.report_id (record_report now node r db) ≡ true
  unfolding is_duplicate record_report
  is_duplicate-record_report =
      ap (any (λ (q : ReportRow). q.id == r.report_id))
        (reports-ingest_samples now r.report_id r.samples _)
      ∙ any-append (λ (q : ReportRow). q.id == r.report_id) db.reports _
      ∙ last (any (λ (q : ReportRow). q.id == r.report_id) db.reports)
    where
      last : (b : Bool) → (b || ((r.report_id == r.report_id) || false)) ≡ true
      last b = ground arith

  is_duplicate-ingest_usage :
      (later : ℕ) → is_duplicate r.report_id (ingest_usage now later node r db).0 ≡ true
  unfolding ingest_usage
  is_duplicate-ingest_usage later =
      if_cases (λ (p : Db × List ℕ). is_duplicate r.report_id p.0 ≡ true)
        (is_duplicate r.report_id db) (λ y. y)
        (λ _. unfold is_duplicate in is_duplicate-record_report)

  -- Once a report was ingested, and whatever reports of any nodes have been ingested since, a report
  -- with the same id changes no table and revokes nobody, whatever it contains and wherever it comes
  -- from, as long as nothing but ingestion has touched the tables.
  pub ingest_usage_again :
      (later now' later' node' : ℕ) (q : ReportInput) {db' : Db}
      → Ingested (ingest_usage now later node r db).0 db'
      → q.report_id ≡ r.report_id
      → ingest_usage now' later' node' q db' ≡ (db', [])
  ingest_usage_again later now' later' node' q {db' = db'} since same =
      duplicate_ignored now' later' node' q db' (
        ap (λ n. is_duplicate n db') same
        ∙ is_duplicate-Ingested r.report_id since (is_duplicate-ingest_usage later))

  authz-record_report : (record_report now node r db).authz ≡ db.authz
  unfolding record_report
  authz-record_report = authz-ingest_samples now r.report_id r.samples _

  -- A new report is answered with exactly the addresses that were authorized before it and are not
  -- paid for after it.
  pub ingest_usage_revokes :
      (later a : ℕ)
      → is_duplicate r.report_id db ≡ false
      → (contains (ingest_usage now later node r db).1 a ≡ true)
        ↔ ((is_member a db.authz.current ≡ true) × ¬ IsPaid later (record_report now node r db) a)
  unfolding ingest_usage
  ingest_usage_revokes later a fresh =
      let db' = record_report now node r db in
      let same : db'.authz ≡ db.authz = authz-record_report in
      let before : is_member a db'.authz.current ≡ is_member a db.authz.current =
        ap (λ (s : Authz). is_member a s.current) same in
      rw (fresh, ← before) (revoked_iff later db' a)

module _ (now : ℕ) where
  bill_ok :
      (bytes : ℕ) (meta : Option ServiceRow) (acct : Option ℕ) (es : List Entitlement)
      → IsKeyed es
      → IsWithin es
      → IsKeyed (bill now bytes meta acct es) × IsWithin (bill now bytes meta acct es)
  unfolding bill
  bill_ok bytes none acct es k w = (k, w)
  bill_ok bytes (some s) none es k w = (k, w)
  bill_ok bytes (some s) (some acct) es k w =
      let c = consume_volume-Charged now acct (weigh bytes s.rate_ppm) es k w in
      if_cases (λ e. IsKeyed e × IsWithin e) (ltb 0 s.rate_ppm) (λ _. (c.keyed, c.within))
        (λ _. (k, w))

  ingest_samples_ok :
      (report : ℕ) (smps : List SampleInput) (db : Db)
      → IsKeyed db.entitlements
      → IsWithin db.entitlements
      → IsKeyed (ingest_samples now report smps db).entitlements
        × IsWithin (ingest_samples now report smps db).entitlements
  unfolding ingest_samples
  ingest_samples_ok report [] db k w = (k, w)
  ingest_samples_ok report (smp ∷ smps) db k w =
      let (k', w') =
        bill_ok (clamp smp.bytes) (service_meta smp.service db.services)
          (attribute now smp.addr db.authz) db.entitlements k w in
      ingest_samples_ok report smps (ingest_sample now report smp db) k' w'

  -- No report, whatever a node puts into it, takes an entitlement beyond its volume.
  pub ingest_usage-IsWithin :
      (later node : ℕ) (r : ReportInput) (db : Db)
      → IsKeyed db.entitlements
      → IsWithin db.entitlements
      → IsWithin (ingest_usage now later node r db).0.entitlements
  unfolding ingest_usage
  ingest_usage-IsWithin later node r db k w =
      if_cases (λ (p : Db × List ℕ). IsWithin p.0.entitlements) (is_duplicate r.report_id db)
        (λ _. w) (λ _. unfold record_report in (ingest_samples_ok r.report_id r.samples _ k w).1)
