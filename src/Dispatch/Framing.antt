-- ===== src/Dispatch/Framing.antt =====
-- What the readers of dispatch/socks.go take from a connection.
use mathlib.Core.Path.{subst}
use mathlib.Core.List.{append_assoc}
use fips_exit_gate.Base.{
  ℕ, ◌+◌, ◌*◌, ◌/◌, ◌%◌, ◌<◌, ◌≡◌, refl, ◌∙◌, sym, ap, false, some, List, [], ◌∷◌, ◌++◌, inl, inr,
  arith, ◌==◌, length, Bool-cases, ==_iff,
}
use fips_exit_gate.Net.{
  Conn, ◌>>=◌, return, read_full, byte_at, resume, resume-some, read-then, guard-then, return-some,
  HasRead, read_full-some,
}
use fips_exit_gate.Dispatch.{
  NetText, IsBytes, IsNetText, Target, refuse, read_host, read_connect, connect_only, address_bytes,
  framed, request_bytes,
}

pub one_byte : (bs : List ℕ) → length bs ≡ 1 → bs ≡ byte_at 0 bs ∷ []
unfolding byte_at
one_byte [] h = absurd (omega (arith, h))
one_byte (a ∷ []) h = refl
one_byte (a ∷ b ∷ bs) h = absurd (omega (arith, h))

pub two_bytes : (bs : List ℕ) → length bs ≡ 2 → bs ≡ byte_at 0 bs ∷ byte_at 1 bs ∷ []
unfolding byte_at
two_bytes [] h = absurd (omega (arith, h))
two_bytes (a ∷ bs) h = ap (◌∷◌ a) (one_byte bs (omega (arith, h)))

pub four_bytes :
    (bs : List ℕ)
    → length bs ≡ 4
    → bs ≡ byte_at 0 bs ∷ byte_at 1 bs ∷ byte_at 2 bs ∷ byte_at 3 bs ∷ []
unfolding byte_at
four_bytes [] h = absurd (omega (arith, h))
four_bytes (a ∷ []) h = absurd (omega (arith, h))
four_bytes (a ∷ b ∷ bs) h = ap (λ xs. a ∷ b ∷ xs) (two_bytes bs (omega (arith, h)))

pub IsBytes-append : (xs ys : List ℕ) → IsBytes (xs ++ ys) → IsBytes xs × IsBytes ys
IsBytes-append [] ys h = (tt, h)
IsBytes-append (x ∷ xs) ys (b, h) = let (l, r) = IsBytes-append xs ys h in ((b, l), r)

pub refuse-none : {A : Type 0} (rep : ℕ) (c d : Conn) (a : A) → refuse rep c ≡ (d, some a) → ⊥
unfolding refuse resume
refuse-none rep c d a h = cc

-- What was read, with `body` next on the connection and nothing written.
pub record Takes (c d : Conn) (body : List ℕ) : Type 0 where
  pub next : c.incoming ≡ body ++ d.incoming
  pub silent : d.sent ≡ c.sent
  pub same_credit : d.credit ≡ c.credit

byte_mod : (n : ℕ) → n < 256 → n % 256 ≡ n
byte_mod n h = omega arith

read_name :
    (c d : Conn) (host : List ℕ)
    → IsBytes c.incoming
    → (do lb ← read_full 1; read_full (byte_at 0 lb)) c ≡ (d, some host)
    → Takes c d ((length host % 256) ∷ host) × (length host % 256 ≡ length host)
read_name c d host bs h =
    let (e, lb, r, q) = read-then c 1 h in
    let s = read_full-some (byte_at 0 lb) e d host q in
    let one = one_byte lb r.size in
    let small = (IsBytes-append (byte_at 0 lb ∷ []) e.incoming (rw (r.next, one) at bs)).0.0 in
    let len : length host % 256 ≡ byte_at 0 lb = ap (λ n. n % 256) s.size ∙ byte_mod _ small in
    (
      record {
        next = rw (len, r.next, ← s.next) (ap (λ xs. xs ++ e.incoming) one);
        silent = s.silent ∙ r.silent;
        same_credit = s.same_credit ∙ r.same_credit;
      },
      len ∙ sym s.size,
    )

module _ (t : NetText) (laws : IsNetText t) where
  read_fixed :
      (n : ℕ) (c d : Conn) (host : List ℕ)
      → IsBytes c.incoming
      → (do b ← read_full n; return (t.text b)) c ≡ (d, some host)
      → (body : List ℕ) × Takes c d body × IsBytes body × (length body ≡ n) × (host ≡ t.text body)
  read_fixed n c d host bs h =
      let (e, b, r, q) = read-then c n h in
      let (same, text) = return-some (t.text b) host e d q in
      (
        b,
        record {
          next = rw (← same) r.next;
          silent = rw (← same) r.silent;
          same_credit = rw (← same) r.same_credit;
        },
        (IsBytes-append b e.incoming (rw r.next at bs)).0,
        r.size,
        sym text,
      )

  -- The host that is read is encoded, in a request, as the bytes that were read.
  pub read_host-Takes :
      (g : Target) (c d : Conn)
      → IsBytes c.incoming
      → read_host t g.atyp c ≡ (d, some g.host)
      → (body : List ℕ) × Takes c d body
        × (address_bytes t g ≡ some body)
        × (g.atyp ≡ 3 → body ≡ length g.host ∷ g.host)
  unfolding read_host address_bytes
  read_host-Takes g c d bs h = elim (Bool-cases (g.atyp == 1)) [
    | inl v4 ↦
        let (body, took, b, size, text) = read_fixed 4 c d g.host bs (rw v4 at h) in
        let other : (g.atyp == 3) ≡ false = ground arith in
        (
          body,
          took,
          rw (other, v4, text) (laws.text4 body b size),
          λ name. absurd (ground (arith, name)),
        )
    | inr not_v4 ↦ elim (Bool-cases (g.atyp == 4)) [
      | inl v6 ↦
          let (body, took, b, size, text) = read_fixed 16 c d g.host bs (rw (not_v4, v6) at h) in
          let other : (g.atyp == 3) ≡ false = ground arith in
          (
            body,
            took,
            rw (other, not_v4, v6, text) (laws.text16 body b size),
            λ name. absurd (ground (arith, name)),
          )
      | inr not_v6 ↦ elim (Bool-cases (g.atyp == 3)) [
        | inl name ↦
            let (took, size) = read_name c d g.host bs (rw (not_v4, not_v6, name) at h) in
            (_, took, rw name refl, λ _. ap (λ n. n ∷ g.host) size)
        | inr unknown ↦ absurd (refuse-none 8 c d g.host (rw (not_v4, not_v6, unknown) at h))
      ]
    ]
  ]

-- The bytes of a domain and of a port, as SOCKS writes them.
abbrev pub IsNamed : Target → List ℕ → Type 0
IsNamed g body = (port : List ℕ) × (body ≡ (length g.host ∷ g.host) ++ port) × (length port ≡ 2)

-- A CONNECT as it stands on the connection, and as it is sent on: the reserved byte becomes 0.
pub record IsRequest (t : NetText) (g : Target) (c d : Conn) : Type 0 where
  pub rsv : ℕ
  pub body : List ℕ
  pub took : Takes c d (5 ∷ 1 ∷ rsv ∷ g.atyp ∷ body)
  pub encoded : request_bytes t g ≡ some (5 ∷ 1 ∷ 0 ∷ g.atyp ∷ body)
  pub named : g.atyp ≡ 3 → IsNamed g body

port_bytes :
    (a b : ℕ) → a < 256 → b < 256 → (((a * 256 + b) / 256) % 256 ≡ a) × ((a * 256 + b) % 256 ≡ b)
port_bytes a b ha hb = (omega arith, omega arith)

pub connect_only-some :
    (cmd : ℕ) (g g' : Target) (c d : Conn)
    → connect_only cmd g c ≡ (d, some g')
    → (cmd ≡ 1) × (c ≡ d) × (g ≡ g')
unfolding connect_only
connect_only-some cmd g g' c d h = elim (Bool-cases (cmd == 1)) [
  | inl connect ↦ let (p, q) = return-some g g' c d (rw connect at h) in (ground arith, p, q)
  | inr other ↦ absurd (refuse-none 7 c d g' (rw other at h))
]

-- The four parts of a request that has been read.
assembled :
    (t : NetText) (hdr pb body host : List ℕ) (c c1 c2 d : Conn)
    → IsBytes c2.incoming
    → HasRead 4 c c1 hdr
    → byte_at 0 hdr ≡ 5
    → byte_at 1 hdr ≡ 1
    → Takes c1 c2 body
    → HasRead 2 c2 d pb
    → let g : Target = record {
      atyp = byte_at 3 hdr;
      host = host;
      port = byte_at 0 pb * 256 + byte_at 1 pb;
    } in
      address_bytes t g ≡ some body
      → (g.atyp ≡ 3 → body ≡ length g.host ∷ g.host)
      → IsRequest t g c d
assembled t hdr pb body host c c1 c2 d bs r1 version connect took r2 code name =
    let pb' = byte_at 0 pb ∷ byte_at 1 pb ∷ [] in
    let ports : pb ≡ pb' = two_bytes pb r2.size in
    let (small, _) =
      IsBytes-append (byte_at 0 pb ∷ byte_at 1 pb ∷ []) d.incoming (rw (r2.next, ports) at bs) in
    let (high, low) = port_bytes (byte_at 0 pb) (byte_at 1 pb) small.0 small.1.0 in
    let head : hdr ≡ 5 ∷ 1 ∷ byte_at 2 hdr ∷ byte_at 3 hdr ∷ [] = four_bytes hdr r1.size ∙ cc in
    record {
      rsv = byte_at 2 hdr;
      body = body ++ pb';
      took = record {
        next =
            r1.next
            ∙ ap (λ xs. hdr ++ xs)
                (took.next
                  ∙ ap (λ xs. body ++ xs) (r2.next ∙ ap (λ xs. xs ++ d.incoming) ports)
                  ∙ sym (append_assoc body pb' d.incoming))
            ∙ ap (λ xs. xs ++ ((body ++ pb') ++ d.incoming)) head;
        silent = r2.silent ∙ took.silent ∙ r1.silent;
        same_credit = r2.same_credit ∙ took.same_credit ∙ r1.same_credit;
      };
      encoded = unfold request_bytes framed in rw (code, high, low) refl;
      named = λ e. (pb', ap (λ xs. xs ++ pb') (name e), refl);
    }

module _ (t : NetText) (laws : IsNetText t) where
  -- A CONNECT that is read is the next thing on the connection, and is encoded again, for the
  -- upstream, byte for byte but for the reserved one.
  pub read_connect-IsRequest :
      (g : Target) (c d : Conn)
      → IsBytes c.incoming
      → read_connect t c ≡ (d, some g)
      → IsRequest t g c d
  unfolding read_connect
  read_connect-IsRequest g c d bs h =
      let (c1, hdr, r1, q1) = read-then c 4 h in
      let (version, q2) = guard-then c1 _ (byte_at 0 hdr == 5) q1 in
      let (c2, host, p3, q3) = resume-some _ (read_host t (byte_at 3 hdr) c1) d g q2 in
      let (c3, pb, r4, q4) = read-then c2 2 q3 in
      let (connect, same, made) = connect_only-some (byte_at 1 hdr) _ g c3 d q4 in
      let b1 = (IsBytes-append hdr c1.incoming (rw r1.next at bs)).1 in
      let (body, took, code, name) =
        read_host-Takes t laws
          (record { atyp = byte_at 3 hdr; host = host; port = byte_at 0 pb * 256 + byte_at 1 pb })
          c1 c2 b1 p3 in
      let b2 = (IsBytes-append body c2.incoming (rw took.next at b1)).1 in
      subst (λ e. IsRequest t g c e) same
        (subst (λ k. IsRequest t k c c3) made
          (assembled t hdr pb body host c c1 c2 c3 b2 r1 ((==_iff (byte_at 0 hdr) 5).0 version)
            connect took r4 code name))
