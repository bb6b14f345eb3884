-- ===== src/Captive/Handshake.antt =====
-- The handshakes of captive/socks.go and dispatch/socks.go on the same connection.
use mathlib.Core.Path.{subst}
use fips_exit_gate.Base.{
  ℕ, suc, ◌+◌, ◌≡◌, ◌∙◌, Bool, true, false, some, List, [], ◌∷◌, ◌++◌, inl, inr, ◌==◌, Bool-cases,
}
use fips_exit_gate.Net.{
  Conn, ◌>>=◌, return, guard, read_full, read_full-add, write, write_ok, byte_at, resume,
  resume-some, resume_ok, return-some,
}
use fips_exit_gate.Dispatch.{
  NetText, Target, read_host, read_connect, negotiate, choose_method, connect_only, accept,
}
use fips_exit_gate.Dispatch.Framing.{refuse-none, connect_only-some}
use fips_exit_gate.Captive.{
  write_socks_reply, address_size, discard_addr_port, answer, socks_accept,
}

fixed-discard :
    (t : NetText) (n : ℕ) (c d e : Conn) (host pb : List ℕ)
    → (do b ← read_full n; return (t.text b)) c ≡ (d, some host)
    → read_full 2 d ≡ (e, some pb)
    → (bytes : List ℕ) × (read_full (n + 2) c ≡ (e, some bytes))
fixed-discard t n c d e host pb h p =
    let (m, b, q, r) = resume-some _ (read_full n c) d host h in
    let (same, _) = return-some (t.text b) host m d r in
    read_full-add n 2 c d e b pb (subst (λ x. read_full n c ≡ (x, some b)) same q) p

name-discard :
    (c d e : Conn) (host pb : List ℕ)
    → (do lb ← read_full 1; read_full (byte_at 0 lb)) c ≡ (d, some host)
    → read_full 2 d ≡ (e, some pb)
    → (bytes : List ℕ) × ((do n ← (do lb ← read_full 1; return (byte_at 0 lb)); read_full (n + 2)) c
        ≡ (e, some bytes))
name-discard c d e host pb h p =
    let (m, lb, q, r) = resume-some _ (read_full 1 c) d host h in
    let (bytes, s) = read_full-add (byte_at 0 lb) 2 m d e host pb r p in
    (bytes, unfold resume in rw q s)

-- The captive portal skips the host and the port that the dispatcher reads.
host-discard :
    (t : NetText) (atyp : ℕ) (c d e : Conn) (host pb : List ℕ)
    → read_host t atyp c ≡ (d, some host)
    → read_full 2 d ≡ (e, some pb)
    → (bytes : List ℕ) × (discard_addr_port atyp c ≡ (e, some bytes))
unfolding read_host discard_addr_port address_size
host-discard t atyp c d e host pb h p = elim (Bool-cases (atyp == 1)) [
  | inl v4 ↦ rw v4 (unfold resume in fixed-discard t 4 c d e host pb (rw v4 at h) p)
  | inr not_v4 ↦ elim (Bool-cases (atyp == 4)) [
    | inl v6 ↦
        rw (not_v4, v6) (unfold resume in fixed-discard t 16 c d e host pb (rw (not_v4, v6) at h) p)
    | inr not_v6 ↦ elim (Bool-cases (atyp == 3)) [
      | inl name ↦
          rw (not_v4, not_v6, name) (name-discard c d e host pb (rw (not_v4, not_v6, name) at h) p)
      | inr unknown ↦ absurd (refuse-none 8 c d host (rw (not_v4, not_v6, unknown) at h))
    ]
  ]
]

choose_method-write :
    (b : Bool) (c d : Conn) → choose_method b c ≡ (d, some tt) → write (5 ∷ 0 ∷ []) c ≡ (d, some tt)
unfolding choose_method resume
choose_method-write true c d h = h
choose_method-write false c d h = cc

answer_connect :
    (cmd : ℕ) (g g' : Target) (c d : Conn) (n : ℕ)
    → connect_only cmd g c ≡ (d, some g')
    → d.credit ≡ suc n
    → answer cmd c ≡ (
      record d { sent = d.sent ++ 5 ∷ 0 ∷ 0 ∷ 1 ∷ 0 ∷ 0 ∷ 0 ∷ 0 ∷ 0 ∷ 0 ∷ []; credit = n },
      some tt,
    )
unfolding answer write_socks_reply
answer_connect cmd g g' c d n h credit =
    let (connect, same, _) = connect_only-some cmd g g' c d h in
    rw (connect, same) (write_ok _ d n credit)

module _ (t : NetText) where
  -- What the dispatcher accepts, the captive portal accepts: on the same connection it takes the
  -- same bytes and sends the same method, and then, as long as one more write succeeds, a success of
  -- its own.
  pub accept-socks_accept :
      (c d : Conn) (g : Target) (n : ℕ)
      → accept t c ≡ (d, some g)
      → d.credit ≡ suc n
      → socks_accept c ≡ (
        record d { sent = d.sent ++ 5 ∷ 0 ∷ 0 ∷ 1 ∷ 0 ∷ 0 ∷ 0 ∷ 0 ∷ 0 ∷ 0 ∷ []; credit = n },
        some tt,
      )
  unfolding accept negotiate read_connect socks_accept
  accept-socks_accept c d g n h credit =
      let (m, u, p, q) = resume-some _ (negotiate c) d g h in
      let (c1, hdr, p1, q1) = resume-some _ (read_full 2 c) m tt p in
      let (c2, u2, p2, q2) = resume-some _ (guard (byte_at 0 hdr == 5) c1) m tt q1 in
      let (c3, methods, p3, q3) = resume-some _ (read_full (byte_at 1 hdr) c2) m tt q2 in
      let (c4, req, p4, q4) = resume-some _ (read_full 4 m) d g q in
      let (c5, u5, p5, q5) = resume-some _ (guard (byte_at 0 req == 5) c4) d g q4 in
      let (c6, host, p6, q6) = resume-some _ (read_host t (byte_at 3 req) c5) d g q5 in
      let (c7, pb, p7, q7) = resume-some _ (read_full 2 c6) d g q6 in
      let (bytes, skipped) = host-discard t (byte_at 3 req) c5 c6 c7 host pb p6 p7 in
      resume_ok _ (read_full 2 c) c1 hdr p1
      ∙ resume_ok _ (guard (byte_at 0 hdr == 5) c1) c2 tt p2
      ∙ resume_ok _ (read_full (byte_at 1 hdr) c2) c3 methods p3
      ∙ resume_ok _ (write (5 ∷ 0 ∷ []) c3) m tt (choose_method-write _ c3 m q3)
      ∙ resume_ok _ (read_full 4 m) c4 req p4
      ∙ resume_ok _ (guard (byte_at 0 req == 5) c4) c5 tt p5
      ∙ resume_ok _ (discard_addr_port (byte_at 3 req) c5) c7 bytes skipped
      ∙ answer_connect (byte_at 1 req) _ g c7 d n q7 credit
