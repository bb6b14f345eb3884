-- ===== src/Dispatch/Exchange.antt =====
-- What the steps of `handle` of dispatch/main.go have taken and sent when they succeed.
use mathlib.Core.List.{append_assoc}
use fips_exit_gate.Base.{
  ℕ, suc, ◌+◌, ◌≡◌, refl, ◌∙◌, sym, ap, Bool, true, false, ◌&&◌, some, List, [], ◌∷◌, ◌++◌, inl,
  inr, arith, ◌==◌, length, Bool-cases,
}
use fips_exit_gate.Base.Sets.{contains}
use fips_exit_gate.Net.{
  Conn, ◌>>=◌, return, read_full, byte_at, resume, resume-some, read-then, guard-then, write-then,
  write-some, lift-then, return-some,
}
use fips_exit_gate.Dispatch.{
  NetText, IsBytes, IsNetText, Target, request_bytes, reply_rest, read_reply, connect_through,
  choose_method, negotiate, accept,
}
use fips_exit_gate.Dispatch.Framing.{IsBytes-append, two_bytes, IsRequest, read_connect-IsRequest}

pub choose_method-some :
    (b : Bool) (c d : Conn)
    → choose_method b c ≡ (d, some tt)
    → (b ≡ true)
      × (d.incoming ≡ c.incoming)
      × (d.sent ≡ c.sent ++ 5 ∷ 0 ∷ [])
      × (c.credit ≡ suc d.credit)
unfolding choose_method resume
choose_method-some true c d h =
    let (at, sent, credit) = write-some (5 ∷ 0 ∷ []) c d h in (refl, at, sent, credit)
choose_method-some false c d h = cc

pub negotiate-some :
    (c d : Conn)
    → negotiate c ≡ (d, some tt)
    → (methods : List ℕ) × (c.incoming ≡ (5 ∷ length methods ∷ methods) ++ d.incoming)
      × (contains methods 0 ≡ true)
      × (d.sent ≡ c.sent ++ 5 ∷ 0 ∷ [])
      × (c.credit ≡ suc d.credit)
unfolding negotiate
negotiate-some c d h =
    let (c1, hdr, r1, q1) = read-then c 2 h in
    let (version, q2) = guard-then c1 _ (byte_at 0 hdr == 5) q1 in
    let (c2, methods, r2, q3) = read-then c1 (byte_at 1 hdr) q2 in
    let (offered, at, sent, credit) = choose_method-some (contains methods 0) c2 d q3 in
    let five : byte_at 0 hdr ≡ 5 = ground (arith, version) in
    let head : hdr ≡ 5 ∷ length methods ∷ [] =
      two_bytes hdr r1.size
      ∙ ap (λ x. x ∷ byte_at 1 hdr ∷ []) five
      ∙ ap (λ x. 5 ∷ x ∷ []) (sym r2.size) in
    (
      methods,
      r1.next
          ∙ ap (λ xs. hdr ++ xs) (r2.next ∙ ap (λ xs. methods ++ xs) (sym at))
          ∙ ap (λ xs. xs ++ (methods ++ d.incoming)) head,
      offered,
      sent ∙ ap (λ xs. xs ++ 5 ∷ 0 ∷ []) (r2.silent ∙ r1.silent),
      sym (r2.same_credit ∙ r1.same_credit) ∙ credit,
    )

-- A part of a reply that is read behind `front`.
reply_part :
    (front : List ℕ) (n : ℕ) (c d : Conn) (r : List ℕ)
    → (do rest ← read_full n; return (front ++ rest)) c ≡ (d, some r)
    → (rest : List ℕ) × (r ≡ front ++ rest) × (c.incoming ≡ rest ++ d.incoming) × (d.sent ≡ c.sent)
reply_part front n c d r h =
    let (e, rest, took, q) = read-then c n h in
    let (same, made) = return-some (front ++ rest) r e d q in
    (rest, sym made, rw (← same) took.next, rw (← same) took.silent)

reply_rest-some :
    (front : List ℕ) (c d : Conn) (r : List ℕ)
    → reply_rest front c ≡ (d, some r)
    → (rest : List ℕ) × (r ≡ front ++ rest) × (c.incoming ≡ rest ++ d.incoming) × (d.sent ≡ c.sent)
unfolding reply_rest
reply_rest-some front c d r h = elim (Bool-cases (byte_at 3 front == 1)) [
  | inl v4 ↦ reply_part front 6 c d r (rw v4 at h)
  | inr not_v4 ↦ elim (Bool-cases (byte_at 3 front == 4)) [
    | inl v6 ↦ reply_part front 18 c d r (rw (not_v4, v6) at h)
    | inr not_v6 ↦ elim (Bool-cases (byte_at 3 front == 3)) [
      | inl name ↦
          let (e, lb, took, q) = read-then c 1 (rw (not_v4, not_v6, name) at h) in
          let (rest, made, at, sent) = reply_part (front ++ lb) (byte_at 0 lb + 2) e d r q in
          (
            lb ++ rest,
            made ∙ append_assoc front lb rest,
            took.next ∙ ap (λ xs. lb ++ xs) at ∙ sym (append_assoc lb rest d.incoming),
            sent ∙ took.silent,
          )
      | inr unknown ↦ cc (rw (not_v4, not_v6, unknown) at h)
    ]
  ]
]

-- `readReply` returns the bytes that it has taken.
read_reply-some :
    (c d : Conn) (r : List ℕ)
    → read_reply c ≡ (d, some r)
    → (c.incoming ≡ r ++ d.incoming) × (d.sent ≡ c.sent)
unfolding read_reply
read_reply-some c d r h =
    let (e, front, took, q) = read-then c 4 h in
    let (rest, made, at, sent) = reply_rest-some front e d r q in
    (
      took.next
          ∙ ap (λ xs. front ++ xs) at
          ∙ sym (append_assoc front rest d.incoming)
          ∙ ap (λ xs. xs ++ d.incoming) (sym made),
      sent ∙ took.silent,
    )

module _ (t : NetText) where
  -- The upstream has been sent the greeting and the request, and its reply has been taken.
  pub connect_through-some :
      (g : Target) (c d : Conn) (r : List ℕ)
      → connect_through t g c ≡ (d, some r)
      → (req : List ℕ) × (request_bytes t g ≡ some req)
        × (d.sent ≡ (c.sent ++ 5 ∷ 1 ∷ 0 ∷ []) ++ req)
        × (c.incoming ≡ 5 ∷ 0 ∷ (r ++ d.incoming))
  unfolding connect_through
  connect_through-some g c d r h =
      let (c1, at1, sent1, _, q1) = write-then c _ (5 ∷ 1 ∷ 0 ∷ []) h in
      let (c2, sel, took, q2) = read-then c1 2 q1 in
      let (good, q3) = guard-then c2 _ (byte_at 0 sel == 5 && byte_at 1 sel == 0) q2 in
      let (req, code, q4) = lift-then c2 _ (request_bytes t g) q3 in
      let (c3, at3, sent3, _, q5) = write-then c2 _ req q4 in
      let (at4, sent4) = read_reply-some c3 d r q5 in
      let zero_five = selected (byte_at 0 sel) (byte_at 1 sel) good in
      let picked : sel ≡ 5 ∷ 0 ∷ [] = two_bytes sel took.size ∙ zero_five in
      (
        req,
        code,
        sent4 ∙ sent3 ∙ ap (λ xs. xs ++ req) (took.silent ∙ sent1),
        sym at1
            ∙ took.next
            ∙ ap (λ xs. xs ++ c2.incoming) picked
            ∙ ap (λ xs. 5 ∷ 0 ∷ xs) (sym at3 ∙ at4),
      )
    where
      selected : (a b : ℕ) → (a == 5 && b == 0) ≡ true → a ∷ b ∷ [] ≡ 5 ∷ 0 ∷ []
      selected a b h =
          let (p, q) : (a ≡ 5) × (b ≡ 0) = (ground arith, ground arith) in rw (p, q) refl

  pub accept-some :
      IsNetText t
      → (g : Target) (c d : Conn) → IsBytes c.incoming
      → accept t c ≡ (d, some g)
      → (methods : List ℕ) × (m : Conn) × (c.incoming
          ≡ (5 ∷ length methods ∷ methods) ++ m.incoming)
        × (contains methods 0 ≡ true)
        × (m.sent ≡ c.sent ++ 5 ∷ 0 ∷ [])
        × (c.credit ≡ suc m.credit)
        × IsRequest t g m d
  unfolding accept
  accept-some laws g c d bs h =
      let (m, u, p, q) = resume-some _ (negotiate c) d g h in
      let (methods, at, offered, sent, credit) = negotiate-some c m p in
      let (_, rest) = IsBytes-append (5 ∷ length methods ∷ methods) m.incoming (rw at at bs) in
      (methods, m, at, offered, sent, credit, read_connect-IsRequest t laws g m d rest q)
