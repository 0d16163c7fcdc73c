-- ===== src/Server/Delivery.antt =====
-- A stream of a user on a connection that stays alive comes through `handleStream`
-- (internal/yggss/tunnel.go).
use yggss.Base.{
  ℕ, zero, suc, ◌≤◌, ◌<◌, ◌≡◌, refl, sym, ap, ◌∙◌, subst, true, false, Option, none, List, [], ◌∷◌,
  ◌++◌, Text, take, drop, length, put_self, arith, if_no, text_eq, ◌≢◌, take-append-drop,
  length-append, ◌-◌,
}
use mathlib.Core.List.{append-nil, append_assoc}
use yggss.Identity.{PublicKey}
use yggss.Stream.Peek.{probe_ping, handled, handle_probe_stream, Source, read}
use yggss.Stream.Lossless.{bytes, text_eq_ne}
use yggss.Server.Forwarding.{unread, read_stream_lem, to_b-open}
use yggss.Stream.Pipe.{Pipe, Turn, is_closed, into_b, pipe_turn, start_copy}
use yggss.Server.Handler.{
  peeking, dialling, piping, Handler, peeked, peek, peek_in, dial, dial_in, dialled, Move, Counters,
  move, move_in, with_counters, after_turn, read_stream, buffered, pipe_buf_size,
}
use yggss.Server.System.{
  Server, set_handler, move_handler, set_counters, counters, conn_of, dials, copies, Steps, here,
  next,
}

module _ {ℓ} {A : Type ℓ} where
  drop_nothing : (n : ℕ) → drop {A = A} n [] ≡ []
  drop_nothing zero = refl
  drop_nothing (suc n) = refl

  pub drop_all : (n : ℕ) (xs : List A) → length xs ≤ n → drop n xs ≡ []
  drop_all n [] h = drop_nothing n
  drop_all zero (x ∷ xs) h = absurd (omega arith)
  drop_all (suc n) (x ∷ xs) h = drop_all n xs (omega arith)

  length-dropped : (n : ℕ) (xs : List A) → length (drop n xs) ≤ length xs
  length-dropped zero xs = omega arith
  length-dropped (suc n) [] = omega arith
  length-dropped (suc n) (x ∷ xs) = let h = length-dropped n xs in omega arith

  -- A part that is taken leaves fewer.
  length-drop : (n : ℕ) (xs : List A) → 0 < n → length (drop n xs) ≤ length xs - 1
  length-drop n [] h = omega (arith, ap length (drop_nothing n))
  length-drop zero (x ∷ xs) h = absurd (omega (arith, h))
  length-drop (suc n) (x ∷ xs) h = let d = length-dropped n xs in omega arith

read_fewer :
    (n : ℕ) (prefix rest : Text)
    → 0 < n
    → length (bytes (read n (record { prefix = prefix; rest = rest })).1)
      ≤ length (prefix ++ rest) - 1
unfolding read
read_fewer n [] rest h = length-drop n rest h
read_fewer n (b ∷ bs) rest h = omega (
  arith,
  length-drop n (b ∷ bs) h,
  length-append (drop n (b ∷ bs)) rest,
  length-append (b ∷ bs) rest,
)

-- A turn of the copy to the shadowsocks server that meets no error.
abbrev flows : Move
flows = record {
  direction = into_b;
  size = pipe_buf_size;
  answer = [];
  read_err = false;
  write_ok = true;
  wrote = 0;
}

-- What such a turn makes of a handler that copies.
record Flowed (src : Source) (before : Text) (c : ℕ) (h : Handler) : Type 0 where
  chunk : Text
  left : Source
  pipe : Pipe
  phase : h.phase ≡ piping left pipe
  going : is_closed pipe ≡ false
  delivered : pipe.to_b.delivered ≡ before ++ chunk
  forwarded : h.forwarded ≡ pipe.to_b.delivered
  conn : h.conn ≡ c
  same : chunk ++ bytes left ≡ bytes src
  fewer : length (bytes left) ≤ length (bytes src) - 1

abbrev flowing : Text → Turn
flowing chunk = record { chunk = chunk; read_err = false; write_ok = true; wrote = 0 }

pipe_flows :
    (p : Pipe) (chunk : Text)
    → is_closed p ≡ false
    → (is_closed (pipe_turn p (into_b, flowing chunk)) ≡ false)
      × ((pipe_turn p (into_b, flowing chunk)).to_b.delivered ≡ p.to_b.delivered ++ chunk)
unfolding pipe_turn
pipe_flows p [] going = (ground arith, ground (arith, append-nil p.to_b.delivered))
pipe_flows p (c ∷ chunk) going = (ground arith, ground arith)

after_open :
    (src : Source) (q : Pipe) (h : Handler)
    → is_closed q ≡ false
    → ((after_turn src q h).phase ≡ piping src q)
      × ((after_turn src q h).forwarded ≡ q.to_b.delivered)
      × ((after_turn src q h).conn ≡ h.conn)
unfolding after_turn
after_open src q h going = (ground arith, ground arith, ground arith)

-- A turn without errors reads something, if anything is left.
record Reads (src : Source) (r : Turn × Source) : Type 0 where
  flowing_turn : r.0 ≡ flowing r.0.chunk
  shorter : length (bytes r.1) ≤ length (bytes src) - 1

read_stream-Reads :
    (prefix rest : Text)
    → let src : Source = record { prefix = prefix; rest = rest } in
      Reads src (read_stream true flows src)
unfolding read_stream buffered pipe_buf_size
read_stream-Reads [] rest = record {
  flowing_turn = refl;
  shorter = read_fewer _ [] rest (omega arith);
}
read_stream-Reads (b ∷ bs) rest = record {
  flowing_turn = refl;
  shorter = read_fewer _ (b ∷ bs) rest (omega arith);
}

flow_turn :
    (k : Counters) (src : Source) (p : Pipe) (h : Handler)
    → is_closed p ≡ false
    → Flowed src p.to_b.delivered h.conn (move_in true flows k (piping src p) h).0
flow_turn k src p h going =
    let (t, left) = read_stream true flows src in
    let r = read_stream-Reads src.prefix src.rest in
    let q = pipe_turn (with_counters k p) (into_b, flowing t.chunk) in
    let (opened, delivered) = pipe_flows (with_counters k p) t.chunk going in
    let (phase, forwarded, conn) = after_open left q h opened in
    subst
      (λ l.
        Flowed src p.to_b.delivered h.conn
          (after_turn l (pipe_turn (with_counters k p) (into_b, t)) h))
      (sym (if_no p.to_b.ended src left (to_b-open p going)))
      (subst
        (λ u.
          Flowed src p.to_b.delivered h.conn
            (after_turn left (pipe_turn (with_counters k p) (into_b, u)) h))
        (sym r.flowing_turn)
        (record {
          chunk = t.chunk;
          left = left;
          pipe = q;
          phase = phase;
          going = opened;
          delivered = delivered;
          forwarded = forwarded;
          conn = conn;
          same = read_stream_lem true flows src;
          fewer = r.shorter;
        }))

flow_step :
    (i : ℕ) (src : Source) (p : Pipe) (s : Server)
    → (s.handlers i).phase ≡ piping src p
    → is_closed p ≡ false
    → (conn_of i s).live ≡ true
    → Flowed src p.to_b.delivered (s.handlers i).conn ((move_handler i flows s).handlers i)
unfolding move_handler set_counters set_handler move
flow_step i src p s at going live =
    let h = s.handlers i in
    let k = counters (conn_of i s).channel s in
    subst (Flowed src p.to_b.delivered h.conn)
      (sym (put_self i (move (conn_of i s).live flows k h).0 s.handlers))
      (subst (λ b. Flowed src p.to_b.delivered h.conn (move b flows k h).0) (sym live)
        (subst (λ ph. Flowed src p.to_b.delivered h.conn (move_in true flows k ph h).0) (sym at)
          (flow_turn k src p h going)))

still_live :
    (i c : ℕ) (s : Server)
    → (s.conns c).live ≡ true
    → ((move_handler i flows s).handlers i).conn ≡ c
    → (conn_of i (move_handler i flows s)).live ≡ true
unfolding move_handler set_counters set_handler
still_live i c s live same = ap (λ x. (s.conns x).live) same ∙ live

same_handlers : (i : ℕ) (s : Server) → (move_handler i flows s).next_handler ≡ s.next_handler
unfolding move_handler set_counters set_handler
same_handlers i s = refl

zero_length : (xs : Text) → length xs ≡ 0 → xs ≡ []
zero_length [] h = refl
zero_length (x ∷ xs) h = absurd (omega arith)

-- Turns that bring everything that is left: at least a byte each, at most a buffer.
flows_through :
    (parse : Text → Option PublicKey) (i k : ℕ) (src : Source) (p : Pipe) (r s : Server)
    → Steps parse r s
    → i < s.next_handler
    → (s.handlers i).phase ≡ piping src p
    → is_closed p ≡ false
    → (s.handlers i).forwarded ≡ p.to_b.delivered
    → (conn_of i s).live ≡ true
    → length (bytes src) ≤ k
    → (t : Server) × Steps parse r t × ((t.handlers i).forwarded ≡ p.to_b.delivered ++ bytes src)
flows_through parse i zero src p r s reached lt at going so_far live small =
    let nothing = zero_length (bytes src) (omega (arith, small)) in
    (
      s,
      reached,
      so_far ∙ sym (append-nil p.to_b.delivered) ∙ ap (λ x. p.to_b.delivered ++ x) (sym nothing),
    )
flows_through parse i (suc k) src p r s reached lt at going so_far live small =
    let s' = move_handler i flows s in
    let f = flow_step i src p s at going live in
    let (t, steps, all) =
      flows_through parse i k f.left f.pipe r s' (next reached (copies i flows lt))
        (omega (arith, lt, same_handlers i s)) f.phase f.going f.forwarded
        (still_live i (s.handlers i).conn s live f.conn) (omega (arith, f.fewer, small)) in
    (
      t,
      steps,
      all
          ∙ ap (λ d. d ++ bytes f.left) f.delivered
          ∙ append_assoc p.to_b.delivered f.chunk (bytes f.left)
          ∙ ap (λ x. p.to_b.delivered ++ x) f.same,
    )

-- The turns after a dial.
flows_all :
    (parse : Text → Option PublicKey) (i : ℕ) (src : Source) (p : Pipe) (r s : Server)
    → Steps parse r s
    → i < s.next_handler
    → (s.handlers i).phase ≡ piping src p
    → is_closed p ≡ false
    → p.to_b.delivered ≡ []
    → (conn_of i s).live ≡ true
    → (t : Server) × Steps parse r t × ((t.handlers i).forwarded ≡ bytes src)
flows_all parse i src p r s reached lt at going start live =
    let s' = move_handler i flows s in
    let f = flow_step i src p s at going live in
    let (t, steps, all) =
      flows_through parse i (length (bytes f.left)) f.left f.pipe r s'
        (next reached (copies i flows lt)) (omega (arith, lt, same_handlers i s)) f.phase f.going
        f.forwarded (still_live i (s.handlers i).conn s live f.conn) (omega arith) in
    (
      t,
      steps,
      all ∙ ap (λ d. d ++ bytes f.left) (f.delivered ∙ ap (λ d. d ++ f.chunk) start) ∙ f.same,
    )

abbrev after_peek : ℕ → Text → Source
after_peek k sent = record {
  prefix = take 2 (take k sent);
  rest = drop 2 (take k sent) ++ drop k sent;
}

peek_user :
    (k : ℕ) (h : Handler)
    → h.phase ≡ peeking
    → text_eq (take 2 (take k h.sent)) probe_ping ≡ false
    → peek k h ≡ record h { phase = dialling (after_peek k h.sent) }
unfolding peek handle_probe_stream
peek_user k h at plain =
    ap (λ ph. peek_in k ph h) at ∙ ap (λ x. peeked x h) (if_no _ handled _ plain)

dial_ok : (h : Handler) (src : Source) → h.phase ≡ dialling src → dial true h ≡ dialled true src h
unfolding dial
dial_ok h src at = ap (λ ph. dial_in true ph h) at

whole_peek : (k : ℕ) (sent : Text) → bytes (after_peek k sent) ≡ sent
whole_peek k sent = unread (take k sent) (drop k sent) ∙ take-append-drop k sent

-- A stream whose first bytes are not those of a probe, on a connection that is alive: however many
-- bytes the server has when it stops to wait for them, it can go on to give all that the client sends
-- to the shadowsocks server, if that answers the dial.
pub user-delivered :
    (parse : Text → Option PublicKey) (s : Server) (i k : ℕ)
    → i < s.next_handler
    → (s.handlers i).phase ≡ peeking
    → (conn_of i s).live ≡ true
    → take 2 (take k (s.handlers i).sent) ≢ probe_ping
    → (t : Server) × Steps parse (set_handler i (peek k (s.handlers i)) s) t
      × ((t.handlers i).forwarded ≡ (s.handlers i).sent)
unfolding set_handler
user-delivered parse s i k lt at live plain =
    let h = s.handlers i in
    let src = after_peek k h.sent in
    let s' = set_handler i (peek k h) s in
    let dialling_h : s'.handlers i ≡ record h { phase = dialling src } =
      put_self i (peek k h) s.handlers
      ∙ peek_user k h at (text_eq_ne (take 2 (take k h.sent)) probe_ping plain) in
    let s'' = set_handler i (dial true (s'.handlers i)) s' in
    let piping_h : s''.handlers i ≡ dialled true src (record h { phase = dialling src }) =
      put_self i (dial true (s'.handlers i)) s'.handlers
      ∙ ap (dial true) dialling_h
      ∙ dial_ok (record h { phase = dialling src }) src refl in
    let (t, steps, forwarded) =
      flows_all parse i src (record { to_a = start_copy none; to_b = start_copy none }) s' s''
        (next here (dials i true lt)) lt (ap (λ x. x.phase) piping_h) refl refl
        (ap (λ x. (s.conns x.conn).live) piping_h ∙ live) in
    (t, steps, forwarded ∙ whole_peek k h.sent)
