-- ===== src/Server/Forwarding.antt =====
-- What one handler gives to the shadowsocks server: the bytes of its stream, in order.
use yggss.Base.{
  ℕ, ◌≡◌, refl, sym, ap, ◌∙◌, subst, Bool, true, false, [], ◌∷◌, ◌++◌, take, drop, take-append-drop,
  Text, arith, Bool-cases, inl, inr, if_splits, if_keeps, if_no, ◌&&◌, text_eq,
}
use mathlib.Core.List.{append_assoc}
use yggss.Stream.Peek.{probe_ping, handled, handle_probe_stream, Source}
use yggss.Stream.Lossless.{bytes, read_lem}
use yggss.Stream.Pipe.{Pipe, Direction, into_a, into_b, is_closed, pipe_turn}
use yggss.Stream.Traffic.{into_b_turn, closed_turn, split_chunk}
use yggss.Server.Handler.{
  Phase, peeking, dialling, piping, finished, Handler, accept_stream, finish, peeked, peek_in, peek,
  dial_in, dial, Move, Counters, move, with_counters, turn, move_in, after_turn, read_stream,
  read_answer, buffered, pipe_buf_size,
}

unfoldable pub IsPrefix : Text → Text → Type 0
IsPrefix s t = (rest : Text) × (s ++ rest ≡ t)

-- Where `src` is still read, it holds what is not forwarded yet; once a copy has ended, both ends
-- are closed.
pub record Copying (src : Source) (p : Pipe) (h : Handler) : Type 0 where
  pub delivered : p.to_b.delivered ≡ h.forwarded
  pub left : is_closed p ≡ false → h.forwarded ++ bytes src ≡ h.sent
  pub closed : is_closed p ≡ true → (h.stream_open ≡ false) × (h.upstream_open ≡ false)

-- Upstream is open only in `pipe`, and nothing is open at the end.
unfoldable pub At : Phase → Handler → Type 0
At peeking h = (h.forwarded ≡ []) × (h.upstream_open ≡ false)
At (dialling src) h = (h.forwarded ≡ []) × (h.upstream_open ≡ false) × (bytes src ≡ h.sent)
At (piping src p) h = Copying src p h
At finished h = (h.stream_open ≡ false) × (h.upstream_open ≡ false)

pub record IsSound (h : Handler) : Type 0 where
  pub whole : IsPrefix h.forwarded h.sent
  pub at : At h.phase h

pub accept_stream-IsSound : (c : ℕ) (sent : Text) → IsSound (accept_stream c sent)
unfolding accept_stream IsPrefix At
accept_stream-IsSound c sent = record { whole = (sent, refl); at = (refl, refl) }

pub finish-IsSound : (h : Handler) → IsPrefix h.forwarded h.sent → IsSound (finish h)
unfolding finish At
finish-IsSound h w = record { whole = w; at = (refl, refl) }

-- The bytes read so far and the rest make up the stream.
pub unread : (arrived later : Text) → take 2 arrived ++ (drop 2 arrived ++ later) ≡ arrived ++ later
unread arrived later =
    sym (append_assoc (take 2 arrived) (drop 2 arrived) later)
    ∙ ap (λ t. t ++ later) (take-append-drop 2 arrived)

peeked-IsSound :
    (arrived later : Text) (h : Handler)
    → arrived ++ later ≡ h.sent
    → At peeking h
    → IsPrefix h.forwarded h.sent
    → IsSound (peeked (handle_probe_stream arrived later) h)
unfolding handle_probe_stream At
peeked-IsSound arrived later h e a w =
    if_keeps (λ x. IsSound (peeked x h)) (text_eq (take 2 arrived) probe_ping) handled _
      (finish-IsSound h w) (record { whole = w; at = (a.0, a.1, unread arrived later ∙ e) })

peek_in-IsSound :
    (k : ℕ) (ph : Phase) (h : Handler) → At ph h → IsSound h → IsSound (peek_in k ph h)
peek_in-IsSound k peeking h a s =
    peeked-IsSound (take k h.sent) (drop k h.sent) h (take-append-drop k h.sent) a s.whole
peek_in-IsSound k (dialling src) h a s = s
peek_in-IsSound k (piping src p) h a s = s
peek_in-IsSound k finished h a s = s

pub peek-IsSound : (k : ℕ) (h : Handler) → IsSound h → IsSound (peek k h)
unfolding peek
peek-IsSound k h s = peek_in-IsSound k h.phase h s.at s

dial_in-IsSound :
    (ok : Bool) (ph : Phase) (h : Handler) → At ph h → IsSound h → IsSound (dial_in ok ph h)
unfolding At
dial_in-IsSound true (dialling src) h a s = record {
  whole = s.whole;
  at = record {
    delivered = sym a.0;
    left = λ e. ap (λ t. t ++ bytes src) a.0 ∙ a.2;
    closed = λ e. cc;
  };
}
dial_in-IsSound false (dialling src) h a s = finish-IsSound h s.whole
dial_in-IsSound ok peeking h a s = s
dial_in-IsSound ok (piping src p) h a s = s
dial_in-IsSound ok finished h a s = s

pub dial-IsSound : (ok : Bool) (h : Handler) → IsSound h → IsSound (dial ok h)
unfolding dial
dial-IsSound ok h s = dial_in-IsSound ok h.phase h s.at s

-- What a turn leaves: `p.to_b` has delivered a prefix, and all but the rest while the pipe is open.
record Went (p : Pipe) (rest : Source) (sent : Text) : Type 0 where
  prefix : IsPrefix p.to_b.delivered sent
  left : is_closed p ≡ false → p.to_b.delivered ++ bytes rest ≡ sent

after_turn-IsSound :
    (rest : Source) (p : Pipe) (h : Handler) → Went p rest h.sent → IsSound (after_turn rest p h)
unfolding after_turn At
after_turn-IsSound rest p h w =
    if_splits IsSound (p.to_a.ended && p.to_b.ended) _ _
      (λ both.
        finish-IsSound (record h { forwarded = p.to_b.delivered; phase = piping rest p }) w.prefix)
      (λ one.
        if_splits IsSound (is_closed p) _ _
          (λ c. record {
            whole = w.prefix;
            at = record { delivered = refl; left = w.left; closed = λ e. (refl, refl) };
          })
          (λ o. record {
            whole = w.prefix;
            at = record { delivered = refl; left = w.left; closed = λ e. absurd (cc (o, e)) };
          }))

stream_at :
    (live : Bool) (m : Move) (prefix rest : Text)
    → let src : Source = record { prefix = prefix; rest = rest } in
      (read_stream live m src).0.chunk ++ bytes (read_stream live m src).1 ≡ bytes src
unfolding read_stream
stream_at true m [] rest = read_lem (buffered m.size) (record { prefix = []; rest = rest })
stream_at false m [] rest = refl
stream_at live m (b ∷ bs) rest = read_lem pipe_buf_size (record { prefix = b ∷ bs; rest = rest })

pub read_stream_lem :
    (live : Bool) (m : Move) (src : Source)
    → (read_stream live m src).0.chunk ++ bytes (read_stream live m src).1 ≡ bytes src
unfolding read_stream
read_stream_lem live m src = stream_at live m src.prefix src.rest

pub turn_closed :
    (d : Direction) (live : Bool) (m : Move) (src : Source) (p : Pipe)
    → is_closed p ≡ true
    → let p' = (turn d live m src p).0 in
      (is_closed p' ≡ true) × (p'.to_b.delivered ≡ p.to_b.delivered)
turn_closed into_a live m src p c = closed_turn p (into_a, read_answer live m) c
turn_closed into_b live m src p c = closed_turn p (into_b, (read_stream live m src).0) c

pub to_b-open : (p : Pipe) → is_closed p ≡ false → p.to_b.ended ≡ false
to_b-open p o = ground arith

turn_open :
    (d : Direction) (live : Bool) (m : Move) (src : Source) (p : Pipe) (sent : Text)
    → is_closed p ≡ false
    → p.to_b.delivered ++ bytes src ≡ sent
    → Went (turn d live m src p).0 (turn d live m src p).1 sent
unfolding pipe_turn IsPrefix
turn_open into_a live m src p sent o left = record { prefix = (bytes src, left); left = λ e. left }
turn_open into_b live m src p sent o left =
    let (t, rest) = read_stream live m src in
    let d = p.to_b.delivered in
    let all =
      append_assoc d t.chunk (bytes rest) ∙ ap (λ x. d ++ x) (read_stream_lem live m src) ∙ left in
    subst (λ r. Went (pipe_turn p (into_b, t)) r sent)
      (sym (if_no p.to_b.ended src rest (to_b-open p o)))
      (elim (into_b_turn p t o) [
        | inl went ↦
            let whole = ap (λ x. x ++ bytes rest) went ∙ all in
            record { prefix = (bytes rest, whole); left = λ e. whole }
        | inr (c, part) ↦ record {
          prefix = (
            drop t.wrote t.chunk ++ bytes rest,
            ap (λ x. x ++ (drop t.wrote t.chunk ++ bytes rest)) part
                ∙ append_assoc d (take t.wrote t.chunk) (drop t.wrote t.chunk ++ bytes rest)
                ∙ ap (λ x. d ++ x) (split_chunk t.wrote t.chunk (bytes rest))
                ∙ sym (append_assoc d t.chunk (bytes rest))
                ∙ all,
          );
          left = λ e. absurd (cc (c, e));
        }
      ])

move_in-IsSound :
    (live : Bool) (m : Move) (n : Counters) (ph : Phase) (h : Handler)
    → At ph h
    → IsSound h
    → IsSound (move_in live m n ph h).0
unfolding At IsPrefix
move_in-IsSound live m n (piping src p) h a s =
    let q = with_counters n p in
    let (p', rest) = turn m.direction live m src q in
    after_turn-IsSound rest p' h (elim (Bool-cases (is_closed p)) [
      | inl c ↦
          let (c', same) = turn_closed m.direction live m src q c in
          record {
            prefix = (s.whole.0, ap (λ x. x ++ s.whole.0) (same ∙ a.delivered) ∙ s.whole.1);
            left = λ e. absurd (cc (c', e));
          }
      | inr o ↦
          turn_open m.direction live m src q h.sent o
            (ap (λ x. x ++ bytes src) a.delivered ∙ a.left o)
    ])
move_in-IsSound live m n peeking h a s = s
move_in-IsSound live m n (dialling src) h a s = s
move_in-IsSound live m n finished h a s = s

pub move-IsSound :
    (live : Bool) (m : Move) (n : Counters) (h : Handler) → IsSound h → IsSound (move live m n h).0
unfolding move
move-IsSound live m n h s = move_in-IsSound live m n h.phase h s.at s
