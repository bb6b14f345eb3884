-- ===== src/Agent/Usage/Buffer.antt =====
-- The buffer of reports: its bound, what a collection adds, and what a flush delivers.
use fips_exit_gate.Base.{
  ◌≤◌, ◌≡◌, ◌∙◌, refl, ap, true, Option, none, some, List, [], ◌∷◌, ◌++◌, arith, ==_refl, length,
  Option-cases, if_cases, inl, inr,
}
use fips_exit_gate.Agent.State.{Addr, UsageReport, UsageAck, Runtime, Agent}
use fips_exit_gate.Agent.Host.{Host, rt-with_runtime, writes-with_runtime}
use fips_exit_gate.Agent.Sync.{present_only}
use fips_exit_gate.Agent.Usage.{
  drop_acked, gc_acct, revoke_batch, apply_revocations, deliver, flush_loop, flush_buffer,
}

module _ {W : Type 0} (h : Host W) where
  rt-gc_acct : (addrs : List Addr) (a : Agent W) → (gc_acct h addrs a).rt ≡ a.rt
  unfolding gc_acct
  rt-gc_acct addrs a = ground arith

  rt-apply_revocations :
      (revoke : List Addr) (a : Agent W) → (apply_revocations h revoke a).rt ≡ a.rt
  unfolding apply_revocations
  rt-apply_revocations [] a = refl
  rt-apply_revocations (x ∷ revoke) a = elim (Option-cases (present_only h (x ∷ revoke) a.world)) [
    | inl n ↦ rw n
    | inr (del, p) ↦ rw p (batch (h.apply_authorized [] del a.world))
  ]
    where
      batch : (o : Option W) → (revoke_batch h (x ∷ revoke) a o).rt ≡ a.rt
      batch none = refl
      batch (some w) = rt-gc_acct (x ∷ revoke) (record a { world = w })

  buffered-deliver :
      (r : UsageReport) (ack : UsageAck) (a : Agent W)
      → (deliver h r ack a).0.rt.buffered_usage ≡ drop_acked r.report_id a.rt.buffered_usage
  unfolding deliver
  buffered-deliver r ack a =
      ap (λ (rt : Runtime). rt.buffered_usage)
        (rt-with_runtime h
          (λ rt. record rt { buffered_usage = drop_acked r.report_id rt.buffered_usage })
          (apply_revocations h ack.revoke a))
      ∙ ap (λ (rt : Runtime). drop_acked r.report_id rt.buffered_usage)
          (rt-apply_revocations ack.revoke a)

  deliver_goes :
      ((r : Runtime) (w : W) → (w' : W) × (h.write_runtime r w ≡ some w'))
      → (r : UsageReport) (ack : UsageAck) (a : Agent W) → (deliver h r ack a).1 ≡ true
  unfolding deliver
  deliver_goes writes r ack a =
      writes-with_runtime h _ (apply_revocations h ack.revoke a) (writes _ _)

  drop_acked_head :
      (r : UsageReport) (rest : List UsageReport) → drop_acked r.report_id (r ∷ rest) ≡ rest
  unfolding drop_acked
  drop_acked_head r rest = rw ==_refl

  flush_loop-append :
      (acks : List UsageAck) (buffer : List UsageReport) (a : Agent W)
      → a.rt.buffered_usage ≡ buffer
      → (flush_loop h acks buffer a).1 ++ (flush_loop h acks buffer a).0.rt.buffered_usage ≡ buffer
  unfolding flush_loop
  flush_loop-append [] buffer a e = e
  flush_loop-append (ack ∷ acks) [] a e = e
  flush_loop-append (ack ∷ acks) (r ∷ rest) a e =
      let next = deliver h r ack a in
      let left : next.0.rt.buffered_usage ≡ rest =
        buffered-deliver r ack a ∙ ap (drop_acked r.report_id) e ∙ drop_acked_head r rest in
      if_cases (λ (p : Agent W × List UsageReport). p.1 ++ p.0.rt.buffered_usage ≡ r ∷ rest) next.1
        (λ _. ap (◌∷◌ r) (flush_loop-append acks next.0.rt.buffered_usage next.0 refl ∙ left))
        (λ _. ap (◌∷◌ r) left)

  -- A flush delivers the oldest reports, in order, and keeps exactly the others: nothing is lost,
  -- doubled or reordered, whatever the backend answers and whether or not the file can be written.
  pub flush_buffer-append :
      (acks : List UsageAck) (a : Agent W)
      → (flush_buffer h acks a).1 ++ (flush_buffer h acks a).0.rt.buffered_usage
        ≡ a.rt.buffered_usage
  unfolding flush_buffer
  flush_buffer-append acks a = flush_loop-append acks a.rt.buffered_usage a refl

  flush_loop_empties :
      ((r : Runtime) (w : W) → (w' : W) × (h.write_runtime r w ≡ some w'))
      → (acks : List UsageAck) (buffer : List UsageReport) (a : Agent W)
      → a.rt.buffered_usage ≡ buffer
      → length buffer ≤ length acks
      → (flush_loop h acks buffer a).0.rt.buffered_usage ≡ []
  unfolding flush_loop
  flush_loop_empties writes [] [] a e n = e
  flush_loop_empties writes [] (r ∷ rest) a e n = elim n [ ]
  flush_loop_empties writes (ack ∷ acks) [] a e n = e
  flush_loop_empties writes (ack ∷ acks) (r ∷ rest) a e n =
      let next = deliver h r ack a in
      let left : next.0.rt.buffered_usage ≡ rest =
        buffered-deliver r ack a ∙ ap (drop_acked r.report_id) e ∙ drop_acked_head r rest in
      if_cases (λ (p : Agent W × List UsageReport). p.0.rt.buffered_usage ≡ []) next.1
        (λ _.
          flush_loop_empties writes acks next.0.rt.buffered_usage next.0 refl
            (rw left (omega arith)))
        (λ stop. cc (deliver_goes writes r ack a))

  -- Where the runtime file can be written and the backend acks as many deliveries as there are
  -- reports, a flush ends with an empty buffer.
  pub flush_buffer_empties :
      ((r : Runtime) (w : W) → (w' : W) × (h.write_runtime r w ≡ some w'))
      → (acks : List UsageAck) (a : Agent W) → length a.rt.buffered_usage ≤ length acks
      → (flush_buffer h acks a).0.rt.buffered_usage ≡ []
  unfolding flush_buffer
  flush_buffer_empties writes acks a n = flush_loop_empties writes acks a.rt.buffered_usage a refl n
