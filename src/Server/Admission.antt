-- ===== src/Server/Admission.antt =====
-- What holds in every state that the server of internal/yggss/tunnel.go reaches.
use yggss.Base.{
  put_keeps, ℕ, suc, ◌<◌, ◌≤◌, ◌≡◌, refl, sym, subst, Bool, true, false, Option, List, [], Text,
  arith,
}
use yggss.Identity.{PublicKey, accepted}
use yggss.Stream.Peek.{Peeked, handled, user}
use yggss.Server.Handler.{
  Phase, peeking, dialling, piping, finished, Handler, accept_stream, finish, peeked, peek, peek_in,
  dial, dial_in, Move, Counters, move, move_in, after_turn,
}
use yggss.Server.System.{
  Server, new_server, nobody, verify, add_conn, lose_conn, add_handler, set_handler, move_handler,
  counters, set_counters, conn_of, Step, accepts, opens, peeks, dials, copies, loses, Steps, here,
  next,
}
use yggss.Server.Forwarding.{
  IsSound, accept_stream-IsSound, finish-IsSound, peek-IsSound, dial-IsSound, move-IsSound,
}

-- A handler stays on its connection and its stream.
SameStream : Handler → Handler → Type 0
SameStream h h' = (h'.conn ≡ h.conn) × (h'.sent ≡ h.sent)

peeked-SameStream : (x : Peeked) (h : Handler) → SameStream h (peeked x h)
unfolding SameStream finish
peeked-SameStream handled h = (refl, refl)
peeked-SameStream (user consumed rest) h = (refl, refl)

peek_in-SameStream : (k : ℕ) (ph : Phase) (h : Handler) → SameStream h (peek_in k ph h)
unfolding SameStream
peek_in-SameStream k peeking h = peeked-SameStream _ h
peek_in-SameStream k (dialling src) h = (refl, refl)
peek_in-SameStream k (piping src p) h = (refl, refl)
peek_in-SameStream k finished h = (refl, refl)

dial_in-SameStream : (ok : Bool) (ph : Phase) (h : Handler) → SameStream h (dial_in ok ph h)
unfolding SameStream finish
dial_in-SameStream true (dialling src) h = (refl, refl)
dial_in-SameStream false (dialling src) h = (refl, refl)
dial_in-SameStream ok peeking h = (refl, refl)
dial_in-SameStream ok (piping src p) h = (refl, refl)
dial_in-SameStream ok finished h = (refl, refl)

move_in-SameStream :
    (live : Bool) (m : Move) (n : Counters) (ph : Phase) (h : Handler)
    → SameStream h (move_in live m n ph h).0
unfolding SameStream after_turn
move_in-SameStream live m n (piping src p) h = ground arith
move_in-SameStream live m n peeking h = (refl, refl)
move_in-SameStream live m n (dialling src) h = (refl, refl)
move_in-SameStream live m n finished h = (refl, refl)

pub record Inv (parse : Text → Option PublicKey) (allowed : Option (List Text)) (s : Server)
    : Type 0 where
  pub same_list : s.allowed ≡ allowed
  pub sound : (i : ℕ) → IsSound (s.handlers i)
  pub known : (i : ℕ) → i < s.next_handler → (s.handlers i).conn < s.next_conn
  pub unused : (i : ℕ) → s.next_handler ≤ i → s.handlers i ≡ nobody
  pub admitted :
      (c : ℕ)
      → c < s.next_conn
      → verify parse (s.conns c).channel allowed (s.conns c).certs ≡ accepted

-- A step of one handler that stays on its connection keeps the invariant.
set_handler-Inv :
    (parse : Text → Option PublicKey) (allowed : Option (List Text)) (s : Server) (i : ℕ)
    (h : Handler)
    → i < s.next_handler
    → SameStream (s.handlers i) h
    → IsSound h
    → Inv parse allowed s
    → Inv parse allowed (set_handler i h s)
unfolding set_handler SameStream
set_handler-Inv parse allowed s i h lt same sound inv = record {
  same_list = inv.same_list;
  sound = put_keeps (λ j x. IsSound x) i h s.handlers sound (λ j ne. inv.sound j);
  known =
      put_keeps (λ j x. j < s.next_handler → x.conn < s.next_conn) i h s.handlers
        (λ l. subst (λ c. c < s.next_conn) (sym same.0) (inv.known i l)) (λ j ne. inv.known j);
  unused =
      put_keeps (λ j x. s.next_handler ≤ j → x ≡ nobody) i h s.handlers
        (λ l. absurd (omega (arith, lt))) (λ j ne. inv.unused j);
  admitted = inv.admitted;
}

set_counters-Inv :
    (parse : Text → Option PublicKey) (allowed : Option (List Text)) (n : Counters) (s : Server)
    → Inv parse allowed s
    → Inv parse allowed (set_counters n s)
unfolding set_counters
set_counters-Inv parse allowed n s inv = record {
  same_list = inv.same_list;
  sound = inv.sound;
  known = inv.known;
  unused = inv.unused;
  admitted = inv.admitted;
}

pub Step-Inv :
    (parse : Text → Option PublicKey) (allowed : Option (List Text)) {s t : Server}
    → Step parse s t
    → Inv parse allowed s
    → Inv parse allowed t
unfolding add_conn add_handler lose_conn move_handler peek dial move accept_stream
Step-Inv parse allowed {s} (accepts ch certs ok) inv = record {
  same_list = inv.same_list;
  sound = inv.sound;
  known = λ i lt. omega (arith, inv.known i lt);
  unused = inv.unused;
  admitted =
      put_keeps (λ c x. c < suc s.next_conn → verify parse x.channel allowed x.certs ≡ accepted)
        s.next_conn _ s.conns
        (λ l. subst (λ a. verify parse ch a certs ≡ accepted) inv.same_list ok)
        (λ c ne l. inv.admitted c (omega arith));
}
Step-Inv parse allowed {s} (opens c sent lt live) inv = record {
  same_list = inv.same_list;
  sound =
      put_keeps (λ j x. IsSound x) s.next_handler _ s.handlers (accept_stream-IsSound c sent)
        (λ j ne. inv.sound j);
  known =
      put_keeps (λ j x. j < suc s.next_handler → x.conn < s.next_conn) s.next_handler _ s.handlers
        (λ l. lt) (λ j ne l. inv.known j (omega arith));
  unused =
      put_keeps (λ j x. suc s.next_handler ≤ j → x ≡ nobody) s.next_handler _ s.handlers
        (λ l. absurd (omega arith)) (λ j ne l. inv.unused j (omega arith));
  admitted = inv.admitted;
}
Step-Inv parse allowed {s} (peeks i k lt) inv =
    set_handler-Inv parse allowed s i (peek k (s.handlers i)) lt
      (peek_in-SameStream k (s.handlers i).phase (s.handlers i))
      (peek-IsSound k (s.handlers i) (inv.sound i)) inv
Step-Inv parse allowed {s} (dials i ok lt) inv =
    set_handler-Inv parse allowed s i (dial ok (s.handlers i)) lt
      (dial_in-SameStream ok (s.handlers i).phase (s.handlers i))
      (dial-IsSound ok (s.handlers i) (inv.sound i)) inv
Step-Inv parse allowed {s} (copies i m lt) inv =
    let c = conn_of i s in
    let n = counters c.channel s in
    set_counters-Inv parse allowed (move c.live m n (s.handlers i)).1 _ (
      set_handler-Inv parse allowed s i (move c.live m n (s.handlers i)).0 lt
        (move_in-SameStream c.live m n (s.handlers i).phase (s.handlers i))
        (move-IsSound c.live m n (s.handlers i) (inv.sound i)) inv)
Step-Inv parse allowed {s} (loses c) inv = record {
  same_list = inv.same_list;
  sound = inv.sound;
  known = inv.known;
  unused = inv.unused;
  admitted =
      put_keeps (λ j x. j < s.next_conn → verify parse x.channel allowed x.certs ≡ accepted) c _
        s.conns (inv.admitted c) (λ j ne. inv.admitted j);
}

pub new_server-Inv :
    (parse : Text → Option PublicKey) (allowed : Option (List Text))
    → Inv parse allowed (new_server allowed)
unfolding new_server nobody
new_server-Inv parse allowed = record {
  same_list = refl;
  sound = λ i. finish-IsSound (accept_stream 0 []) (accept_stream-IsSound 0 []).whole;
  known = λ i lt. absurd (omega arith);
  unused = λ i l. refl;
  admitted = λ c lt. absurd (omega arith);
}

pub Steps-Inv :
    (parse : Text → Option PublicKey) (allowed : Option (List Text)) {s t : Server}
    → Steps parse s t
    → Inv parse allowed s
    → Inv parse allowed t
Steps-Inv parse allowed here inv = inv
Steps-Inv parse allowed (next r st) inv = Step-Inv parse allowed st (Steps-Inv parse allowed r inv)
