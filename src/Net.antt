-- ===== src/Net.antt =====
-- A connection as the proxies' handshakes use it (`net.Conn` with `io.ReadFull` and `Write`), and the
-- actions on it. Bytes are numbers; that they are below 256 is said where it is used.
use mathlib.Core.Path.{sym}
use fips_exit_gate.Base.{
  ℕ, zero, suc, ◌+◌, ◌≤◌, ◌≡◌, refl, ◌∙◌, ap, Bool, true, false, Option, none, some, List, [], ◌∷◌,
  ◌++◌, inl, inr, arith, leb, if◌then◌else◌, length, take, drop, take-append-drop, length-take,
  length-drop, Bool-cases, leb→le,
}

-- `incoming` is what the peer sends, up to where it stops or the deadline passes; `credit` is the
-- number of writes that succeed.
pub record Conn : Type 0 where
  pub incoming : List ℕ
  pub sent : List ℕ
  pub credit : ℕ

-- An action: `none` is an error, after which the connection is as far as it got.
abbrev pub M : Type 0 → Type 0
M A = Conn → Conn × Option A

-- Shut in proofs, where the lemmas `…-then` take the steps apart.
unfoldable pub resume : {A B : Type 0} → (A → M B) → Conn × Option A → Conn × Option B
resume f (c, none) = (c, none)
resume f (c, some a) = f a c

infixl 5 ◌>>=◌ ◌>>◌
abbrev pub ◌>>=◌ : {A B : Type 0} → M A → (A → M B) → M B
◌>>=◌ m f c = resume f (m c)

abbrev pub ◌>>◌ : {B : Type 0} → M (Unit {0}) → M B → M B
m >> k = m >>= λ _. k

abbrev pub return : {A : Type 0} → A → M A
return a c = (c, some a)

abbrev pub fail : {A : Type 0} → M A
fail c = (c, none)

abbrev pub lift : {A : Type 0} → Option A → M A
lift o c = (c, o)

abbrev pub guard : Bool → M (Unit {0})
guard true = return tt
guard false = fail

-- `io.ReadFull` into a buffer of `n` bytes: a short read is an error, and has taken what there was.
unfoldable pub read_full : ℕ → M (List ℕ)
read_full n c =
    if leb n (length c.incoming)
    then (record c { incoming = drop n c.incoming }, some (take n c.incoming))
    else (record c { incoming = [] }, none)

write_with : ℕ → List ℕ → M (Unit {0})
write_with zero bytes c = (c, none)
write_with (suc n) bytes c = (record c { sent = c.sent ++ bytes; credit = n }, some tt)

unfoldable pub write : List ℕ → M (Unit {0})
unfolding write_with
write bytes c = write_with c.credit bytes c

-- `_, _ = rw.Write(…)`: the error is ignored.
abbrev pub ignore : Conn × Option (Unit {0}) → Conn × Option (Unit {0})
ignore (c, o) = (c, some tt)

-- `b[i]` of a buffer that is long enough.
unfoldable pub byte_at : ℕ → List ℕ → ℕ
byte_at i [] = 0
byte_at zero (b ∷ bs) = b
byte_at (suc i) (b ∷ bs) = byte_at i bs

pub resume-some :
    {A B : Type 0} (f : A → M B) (r : Conn × Option A) (c' : Conn) (b : B)
    → resume f r ≡ (c', some b)
    → (d : Conn) × (a : A) × (r ≡ (d, some a)) × (f a d ≡ (c', some b))
unfolding resume
resume-some f (d, none) c' b h = cc
resume-some f (d, some a) c' b h = (d, a, refl, h)

pub guard-some : (b : Bool) (c c' : Conn) → guard b c ≡ (c', some tt) → (b ≡ true) × (c ≡ c')
guard-some true c c' h = (refl, cc)
guard-some false c c' h = cc

-- A read that succeeds returns the next bytes.
pub record HasRead (n : ℕ) (c c' : Conn) (bytes : List ℕ) : Type 0 where
  pub size : length bytes ≡ n
  pub next : c.incoming ≡ bytes ++ c'.incoming
  pub silent : c'.sent ≡ c.sent
  pub same_credit : c'.credit ≡ c.credit

pub read_full-some :
    (n : ℕ) (c c' : Conn) (bytes : List ℕ) → read_full n c ≡ (c', some bytes) → HasRead n c c' bytes
unfolding read_full
read_full-some n c c' bytes h = elim (Bool-cases (leb n (length c.incoming))) [
  | inl y ↦
      let q = rw y at h in
      let left : record c { incoming = drop n c.incoming } ≡ c' = cc q in
      let got : take n c.incoming ≡ bytes = cc q in
      record {
        size = rw (← got) (length-take n c.incoming (leb→le n (length c.incoming) y));
        next = rw (← got, ← left) (sym (take-append-drop n c.incoming));
        silent = rw (← left) refl;
        same_credit = rw (← left) refl;
      }
  | inr short ↦ cc (rw short at h)
]

write_with-some :
    (n : ℕ) (bytes : List ℕ) (c c' : Conn)
    → write_with n bytes c ≡ (c', some tt)
    → (c'.incoming ≡ c.incoming) × (c'.sent ≡ c.sent ++ bytes) × (n ≡ suc c'.credit)
unfolding write_with
write_with-some zero bytes c c' h = cc
write_with-some (suc n) bytes c c' h =
    let e : record c { sent = c.sent ++ bytes; credit = n } ≡ c' = cc in rw (← e) (refl, refl, refl)

pub write-some :
    (bytes : List ℕ) (c c' : Conn)
    → write bytes c ≡ (c', some tt)
    → (c'.incoming ≡ c.incoming) × (c'.sent ≡ c.sent ++ bytes) × (c.credit ≡ suc c'.credit)
unfolding write
write-some bytes c c' h = write_with-some c.credit bytes c c' h

-- With a write left, a write succeeds.
pub write_ok :
    (bytes : List ℕ) (c : Conn) (n : ℕ)
    → c.credit ≡ suc n
    → write bytes c ≡ (record c { sent = c.sent ++ bytes; credit = n }, some tt)
unfolding write write_with
write_ok bytes c n h = rw h refl

module _ {B : Type 0} (c : Conn) {c' : Conn} {b : B} where
  pub read-then :
      {f : List ℕ → M B} (n : ℕ)
      → (read_full n >>= f) c ≡ (c', some b)
      → (d : Conn) × (bytes : List ℕ) × HasRead n c d bytes × (f bytes d ≡ (c', some b))
  read-then {f = f} n h =
      let (d, bytes, p, q) = resume-some f (read_full n c) c' b h in
      (d, bytes, read_full-some n c d bytes p, q)

  pub guard-then :
      (f : Unit {0} → M B) (t : Bool)
      → (guard t >>= f) c ≡ (c', some b)
      → (t ≡ true) × (f tt c ≡ (c', some b))
  guard-then f t h =
      let (d, u, p, q) = resume-some f (guard t c) c' b h in
      let (yes_t, same) = guard-some t c d p in (yes_t, rw same q)

  pub write-then :
      (f : Unit {0} → M B) (bytes : List ℕ)
      → (write bytes >>= f) c ≡ (c', some b)
      → (d : Conn) × (d.incoming ≡ c.incoming)
        × (d.sent ≡ c.sent ++ bytes)
        × (c.credit ≡ suc d.credit)
        × (f tt d ≡ (c', some b))
  write-then f bytes h =
      let (d, u, p, q) = resume-some f (write bytes c) c' b h in
      let (r, s, t) = write-some bytes c d p in (d, r, s, t, q)

  pub lift-then :
      {A : Type 0} (f : A → M B) (o : Option A)
      → (lift o >>= f) c ≡ (c', some b)
      → (a : A) × (o ≡ some a) × (f a c ≡ (c', some b))
  unfolding resume
  lift-then f none h = cc
  lift-then f (some a) h = (a, refl, h)

-- An action that ends a chain.
pub return-some : {A : Type 0} (a b : A) (c d : Conn) → return a c ≡ (d, some b) → (c ≡ d) × (a ≡ b)
return-some a b c d h = (cc, cc)

drop-nil : {A : Type 0} (n : ℕ) {xs : List A} → xs ≡ [] → drop n xs ≡ []
drop-nil zero e = e
drop-nil (suc n) e = rw e refl

drop-drop : {A : Type 0} (n m : ℕ) (xs : List A) → drop m (drop n xs) ≡ drop (n + m) xs
drop-drop zero m xs = ap (λ k. drop k xs) (omega arith)
drop-drop (suc n) m [] = drop-nil m refl ∙ sym (drop-nil (suc n + m) refl)
drop-drop (suc n) m (x ∷ xs) =
    let shift : suc (n + m) ≡ suc n + m = omega arith in
    drop-drop n m xs ∙ ap (λ k. drop k (x ∷ xs)) shift

read_full-le :
    (n : ℕ) (c d : Conn) (a : List ℕ)
    → read_full n c ≡ (d, some a)
    → (n ≤ length c.incoming) × (record c { incoming = drop n c.incoming } ≡ d)
unfolding read_full
read_full-le n c d a h = elim (Bool-cases (leb n (length c.incoming))) [
  | inl y ↦ (leb→le n (length c.incoming) y, cc (rw y at h))
  | inr short ↦ cc (rw short at h)
]

-- Two reads in one.
pub read_full-add :
    (n m : ℕ) (c d e : Conn) (a b : List ℕ)
    → read_full n c ≡ (d, some a)
    → read_full m d ≡ (e, some b)
    → (bytes : List ℕ) × (read_full (n + m) c ≡ (e, some bytes))
unfolding read_full
read_full-add n m c d e a b p q =
    let (enough, left) = read_full-le n c d a p in
    let (more, rest) = read_full-le m d e b q in
    let fits : leb (n + m) (length c.incoming) ≡ true =
      ground (arith, rw (← left) at more, length-drop n c.incoming) in
    (take (n + m) c.incoming, rw (fits, ← rest, ← left, drop-drop n m c.incoming) refl)

-- A chain goes on where an action has succeeded.
pub resume_ok :
    {A B : Type 0} (f : A → M B) (r : Conn × Option A) (d : Conn) (a : A)
    → r ≡ (d, some a)
    → resume f r ≡ f a d
unfolding resume
resume_ok f r d a h = rw h refl
