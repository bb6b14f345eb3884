-- ===== src/Dispatch/Forward.antt =====
-- What `handle` of dispatch/main.go has sent on both connections when it starts to relay.
use fips_exit_gate.Base.{
  ℕ, ◌≡◌, refl, ◌∙◌, sym, ap, true, Option, none, some, List, [], ◌∷◌, ◌++◌, inl, inr, ◌==◌, length,
  Bool-cases, ==_iff, some_eq,
}
use fips_exit_gate.Net.{Conn, write, byte_at, write-some}
use fips_exit_gate.Dispatch.{
  NetText, IsBytes, IsNetText, Target, Config, Session, connect_through, accept, pick_upstream,
  relayed, relay_reply, on_dial, route, on_request, handle,
}
use fips_exit_gate.Base.Sets.{contains}
use fips_exit_gate.Dispatch.Framing.{IsNamed}
use fips_exit_gate.Dispatch.Routing.{IsRouted, pick_upstream-IsRouted}
use fips_exit_gate.Dispatch.Exchange.{connect_through-some, accept-some}

module _ (t : NetText) (cfg : Config) (dial : List ℕ → Option Conn) where
  -- What a session has done that goes on to relay.
  record Dialled (g : Target) (c : Conn) (up : List ℕ) (s : Session) : Type 0 where
    u : Conn
    u' : Conn
    reply : List ℕ
    dials : (s.dialled ≡ some up) × (dial up ≡ some u) × (s.upstream ≡ some u')
    through : connect_through t g u ≡ (u', some reply)
    sent : (s.client.sent ≡ c.sent ++ reply) × (s.client.incoming ≡ c.incoming)
    accepted : byte_at 1 reply ≡ 0

  relayed-Dialled :
      (g : Target) (c u u' : Conn) (up reply : List ℕ) (w : Conn × Option (Unit {0}))
      → dial up ≡ some u
      → connect_through t g u ≡ (u', some reply)
      → write reply c ≡ w
      → (relayed t cfg dial up u' reply w).tunnel ≡ true
      → Dialled g c up (relayed t cfg dial up u' reply w)
  unfolding relayed
  relayed-Dialled g c u u' up reply (d, none) e p q h = cc
  relayed-Dialled g c u u' up reply (d, some ok) e p q h =
      let (at, sent, _) = write-some reply c d q in
      record {
        u = u;
        u' = u';
        reply = reply;
        dials = (refl, e, refl);
        through = p;
        sent = (sent, at);
        accepted = (==_iff (byte_at 1 reply) 0).0 h;
      }

  relay_reply-Dialled :
      (g : Target) (c u : Conn) (up : List ℕ) (r : Conn × Option (List ℕ))
      → dial up ≡ some u
      → connect_through t g u ≡ r
      → (relay_reply t cfg dial up c r).tunnel ≡ true
      → Dialled g c up (relay_reply t cfg dial up c r)
  unfolding relay_reply
  relay_reply-Dialled g c u up (u', none) e p h = cc
  relay_reply-Dialled g c u up (u', some reply) e p h =
      relayed-Dialled g c u u' up reply (write reply c) e p refl h

  on_dial-Dialled :
      (g : Target) (c : Conn) (up : List ℕ) (o : Option Conn)
      → dial up ≡ o
      → (on_dial t cfg dial g up c o).tunnel ≡ true
      → Dialled g c up (on_dial t cfg dial g up c o)
  unfolding on_dial
  on_dial-Dialled g c up none e h = cc
  on_dial-Dialled g c up (some u) e h =
      relay_reply-Dialled g c u up (connect_through t g u) e refl h

  route-Dialled :
      (g : Target) (c : Conn) (up : List ℕ) (rep : ℕ)
      → (route t cfg dial g c (up, rep)).tunnel ≡ true
      → (rep ≡ 0) × Dialled g c up (route t cfg dial g c (up, rep))
  unfolding route
  route-Dialled g c up rep h = elim (Bool-cases (rep == 0)) [
    | inl go ↦ ((==_iff rep 0).0 go, rw go (on_dial-Dialled g c up (dial up) refl (rw go at h)))
    | inr refused ↦ cc (rw refused at h)
  ]

  picked-Dialled :
      (g : Target) (c : Conn) (choice : List ℕ × ℕ)
      → (route t cfg dial g c choice).tunnel ≡ true
      → (up : List ℕ) × (choice ≡ (up, 0)) × Dialled g c up (route t cfg dial g c choice)
  picked-Dialled g c (up, rep) h =
      let (ok, d) = route-Dialled g c up rep h in (up, ap (λ n. (up, n)) ok, d)

  on_request-Dialled :
      (r : Conn × Option Target)
      → (on_request t cfg dial r).tunnel ≡ true
      → (c : Conn) × (g : Target) × (r ≡ (c, some g))
        × (up : List ℕ) × (pick_upstream t g.host (g.atyp == 3) cfg ≡ (up, 0))
        × Dialled g c up (on_request t cfg dial r)
  unfolding on_request
  on_request-Dialled (c, none) h = cc
  on_request-Dialled (c, some g) h =
      let (up, picked, d) = picked-Dialled g c (pick_upstream t g.host (g.atyp == 3) cfg) h in
      (c, g, refl, up, picked, d)

  -- A session that relays, on a client connection that was `c`.
  pub record IsTunnel (c : Conn) (s : Session) : Type 0 where
    pub methods : List ℕ
    pub rsv : ℕ
    pub target : Target
    pub body : List ℕ
    pub up : List ℕ
    pub u : Conn
    pub u' : Conn
    pub reply : List ℕ
    -- The client has sent a greeting that offers no authentication, and a CONNECT; nothing behind
    -- them has been read.
    pub offered : contains methods 0 ≡ true
    pub asked :
        c.incoming
        ≡ (5 ∷ length methods ∷ methods)
          ++ (5 ∷ 1 ∷ rsv ∷ target.atyp ∷ (body ++ s.client.incoming))
    -- If the CONNECT names a domain, its bytes are the name that is routed.
    pub named : target.atyp ≡ 3 → IsNamed target body
    -- The upstream for that name, or for an address, has been dialled.
    pub routed : IsRouted t cfg target up
    pub dials : (s.dialled ≡ some up) × (dial up ≡ some u) × (s.upstream ≡ some u')
    -- It has been sent the no-auth greeting and that CONNECT, and has accepted both.
    pub forwarded : u'.sent ≡ (u.sent ++ 5 ∷ 1 ∷ 0 ∷ []) ++ (5 ∷ 1 ∷ 0 ∷ target.atyp ∷ body)
    pub answered : u.incoming ≡ 5 ∷ 0 ∷ (reply ++ u'.incoming)
    pub accepted : byte_at 1 reply ≡ 0
    -- The client has been sent the method and the upstream's reply.
    pub relays : s.client.sent ≡ (c.sent ++ 5 ∷ 0 ∷ []) ++ reply

  -- When `handle` goes on to relay, the client has sent a greeting that offers no authentication, and
  -- a CONNECT. If the CONNECT names a domain which, in lower case and without the dot that may end it,
  -- has the onion suffix, the Tor upstream has been dialled; otherwise the clearnet one. It has been
  -- sent the client's own CONNECT, byte for byte but for the reserved byte, behind a no-auth greeting;
  -- the client has been sent the upstream's reply byte for byte behind the method; and everything that
  -- either peer has sent beyond these is still to be relayed.
  pub handle-IsTunnel :
      IsNetText t
      → (c : Conn) → IsBytes c.incoming
      → (handle t cfg dial c).tunnel ≡ true
      → IsTunnel c (handle t cfg dial c)
  unfolding handle
  handle-IsTunnel laws c bs h =
      let (e, g, at, up, picked, d) = on_request-Dialled (accept t c) h in
      let (methods, m, before, offered, method, _, r) = accept-some t laws g c e bs at in
      let (req, code, forward, answer) = connect_through-some t g d.u d.u' d.reply d.through in
      record {
        methods = methods;
        offered = offered;
        rsv = r.rsv;
        target = g;
        body = r.body;
        up = up;
        u = d.u;
        u' = d.u';
        reply = d.reply;
        asked =
            before
            ∙ ap (λ xs. (5 ∷ length methods ∷ methods) ++ xs)
                (r.took.next ∙ ap (λ xs. 5 ∷ 1 ∷ r.rsv ∷ g.atyp ∷ (r.body ++ xs)) (sym d.sent.1));
        named = r.named;
        routed = pick_upstream-IsRouted t cfg g up picked;
        dials = d.dials;
        forwarded =
            forward
            ∙ ap (λ xs. (d.u.sent ++ 5 ∷ 1 ∷ 0 ∷ []) ++ xs) (some_eq (sym code ∙ r.encoded));
        answered = answer;
        accepted = d.accepted;
        relays = d.sent.0 ∙ ap (λ xs. xs ++ d.reply) (r.took.silent ∙ method);
      }
