-- ===== src/Agent/Usage/Revoke.antt =====
-- The inline revocations of a usage ack: on a host that works they cut off exactly the revoked
-- addresses, also when some of them are gone already.
use fips_exit_gate.Base.{
  ◌≡◌, ◌∙◌, refl, sym, ap, Bool, true, false, not, ◌&&◌, ◌||◌, List, [], ◌∷◌, inl, inr,
  Option-cases, and_right,
}
use fips_exit_gate.Base.Sets.{contains}
use fips_exit_gate.Agent.State.{Addr, AcctKey, Agent}
use fips_exit_gate.Agent.Host.{Host, IsHost}
use fips_exit_gate.Agent.Sync.Outcomes.{present_only_ok}
use fips_exit_gate.Agent.Sync.Progress.{IsReliable, present_only_total}
use fips_exit_gate.Agent.Usage.{acct_of, gc_deleted, gc_acct, apply_revocations}

module _ {W : Type 0} (h : Host W) (laws : IsHost h) where
  -- Accounting clean-up never touches the authorized set, whatever fails in it.
  members-gc_acct :
      (addrs : List Addr) (a : Agent W) → h.members (gc_acct h addrs a).world ≡ h.members a.world
  unfolding gc_acct
  members-gc_acct addrs a = elim (Option-cases (h.read_acct a.world)) [
    | inl n ↦ rw n
    | inr (existing, p) ↦ rw p (deleted (acct_of addrs existing))
  ]
    where
      deleted :
          (ks : List AcctKey)
          → h.members (gc_deleted h a (h.delete_acct ks a.world)).world ≡ h.members a.world
      deleted ks = elim (Option-cases (h.delete_acct ks a.world)) [
        | inl n ↦ rw n
        | inr (w, p) ↦ rw p (laws.acct_members ks a.world w p)
      ]

module _ {W : Type 0} (h : Host W) (laws : IsHost h) (works : IsReliable h) where
  -- After the revocations of an ack no revoked address is live, and every other member still is.
  pub apply_revocations_members :
      (revoke : List Addr) (a : Agent W) (x : Addr)
      → contains (h.members (apply_revocations h revoke a).world) x
        ≡ (contains (h.members a.world) x && not (contains revoke x))
  unfolding apply_revocations contains
  apply_revocations_members [] a x = cases (contains (h.members a.world) x)
    where
      cases : (b : Bool) → b ≡ (b && true)
      cases true = refl
      cases false = refl
  apply_revocations_members (r ∷ revoke) a x =
      let (del, kept) = present_only_total h laws works (r ∷ revoke) a.world in
      let live = present_only_ok h laws (r ∷ revoke) a.world kept in
      let (w, p) = works.applies [] del a.world (λ y d.
        and_right (contains (r ∷ revoke) y) (contains (h.members a.world) y) (sym (live y) ∙ d)) in
      rw (kept, p)
        (ap (λ (m : List Addr). contains m x)
            (members-gc_acct h laws (r ∷ revoke) (record a { world = w }))
          ∙ laws.apply_members [] del a.world w p x
          ∙ ap (λ b. (contains (h.members a.world) x || false) && not b) (live x)
          ∙ cut (contains (h.members a.world) x) (contains (r ∷ revoke) x))
    where
      cut : (m r : Bool) → ((m || false) && not (r && m)) ≡ (m && not r)
      cut true true = refl
      cut true false = refl
      cut false true = refl
      cut false false = refl
