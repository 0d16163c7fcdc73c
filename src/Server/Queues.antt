-- ===== src/Server/Queues.antt =====
-- The server seen from outside: one byte queue for each stream, from the client to the shadowsocks
-- server, and nothing that joins two of them.
use yggss.Base.{
  ℕ, ◌≡◌, ◌≢◌, ◌⊎◌, inl, inr, refl, sym, ap, ◌∙◌, subst, Bool, true, false, [], ◌++◌, take, drop,
  take-append-drop, Text, Bool-cases, arith, if_keeps, if_no, if_yes, ◌&&◌, text_eq, if◌then◌else◌,
}
use mathlib.Core.List.{append-nil}
use yggss.Stream.Peek.{probe_ping, handled, handle_probe_stream, Source}
use yggss.Stream.Lossless.{bytes}
use yggss.Stream.Pipe.{Pipe, Direction, is_closed, into_a, into_b, pipe_turn}
use yggss.Stream.Traffic.{into_b_turn, split_chunk}
use yggss.Server.Handler.{
  Phase, peeking, dialling, piping, finished, Handler, finish, peeked, peek_in, dial_in, Move,
  Counters, move_in, turn, with_counters, after_turn, read_stream,
}
use yggss.Server.Forwarding.{At, Copying, turn_closed, to_b-open, read_stream_lem, unread}

-- What has gone to the shadowsocks server, and what still may.
pub record Queue : Type 0 where
  pub passed : Text
  pub waiting : Text

unfoldable pub waiting_in : Phase → Text → Text
waiting_in peeking sent = sent
waiting_in (dialling src) sent = bytes src
waiting_in (piping src p) sent = if is_closed p then [] else bytes src
waiting_in finished sent = []

abbrev pub queue : Handler → Queue
queue h = record { passed = h.forwarded; waiting = waiting_in h.phase h.sent }

-- A queue passes some bytes from its front, and may give up the others.
pub record Serves (q r : Queue) : Type 0 where
  pub chunk : Text
  pub left : Text
  pub front : q.waiting ≡ chunk ++ left
  pub passes : r.passed ≡ q.passed ++ chunk
  pub rest : (r.waiting ≡ left) ⊎ (r.waiting ≡ [])

-- The abstract server: an unused queue is opened with the bytes of a new stream, or one queue serves.
pub data Moves (f g : ℕ → Queue) : Type 0 where
  opened :
      (i : ℕ) (sent : Text)
      → f i ≡ record { passed = []; waiting = [] }
      → g i ≡ record { passed = []; waiting = sent }
      → ((j : ℕ) → i ≢ j → g j ≡ f j)
      → Moves f g
  served : (i : ℕ) → Serves (f i) (g i) → ((j : ℕ) → i ≢ j → g j ≡ f j) → Moves f g
  kept : ((j : ℕ) → g j ≡ f j) → Moves f g

keeps_queue :
    (q r : Queue) → r.passed ≡ q.passed → (r.waiting ≡ q.waiting) ⊎ (r.waiting ≡ []) → Serves q r
keeps_queue q r p w = record {
  chunk = [];
  left = q.waiting;
  front = refl;
  passes = p ∙ sym (append-nil q.passed);
  rest = w;
}

peeked-Serves :
    (arrived later : Text) (h : Handler) (sent : Text)
    → arrived ++ later ≡ sent
    → Serves
        (record { passed = h.forwarded; waiting = sent })
        (queue (peeked (handle_probe_stream arrived later) h))
unfolding handle_probe_stream finish waiting_in
peeked-Serves arrived later h sent e =
    if_keeps (λ x. Serves (record { passed = h.forwarded; waiting = sent }) (queue (peeked x h)))
      (text_eq (take 2 arrived) probe_ping) handled _ (keeps_queue _ _ refl (inr refl))
      (keeps_queue _ _ refl (inl (unread arrived later ∙ e)))

-- The queue of a handler whose phase is known.
abbrev pub queue_in : Phase → Handler → Queue
queue_in ph h = record { passed = h.forwarded; waiting = waiting_in ph h.sent }

unmoved : (ph : Phase) (h : Handler) → ph ≡ h.phase → Serves (queue_in ph h) (queue h)
unmoved ph h e = keeps_queue _ _ refl (inl (ap (λ x. waiting_in x h.sent) (sym e)))

pub peek_in-Serves :
    (k : ℕ) (ph : Phase) (h : Handler)
    → ph ≡ h.phase
    → Serves (queue_in ph h) (queue (peek_in k ph h))
unfolding waiting_in
peek_in-Serves k peeking h e =
    peeked-Serves (take k h.sent) (drop k h.sent) h h.sent (take-append-drop k h.sent)
peek_in-Serves k (dialling src) h e = unmoved (dialling src) h e
peek_in-Serves k (piping src p) h e = unmoved (piping src p) h e
peek_in-Serves k finished h e = unmoved finished h e

pub dial_in-Serves :
    (ok : Bool) (ph : Phase) (h : Handler)
    → ph ≡ h.phase
    → Serves (queue_in ph h) (queue (dial_in ok ph h))
unfolding waiting_in finish
dial_in-Serves true (dialling src) h e = keeps_queue _ _ refl (inl refl)
dial_in-Serves false (dialling src) h e = keeps_queue _ _ refl (inr refl)
dial_in-Serves ok peeking h e = unmoved peeking h e
dial_in-Serves ok (piping src p) h e = unmoved (piping src p) h e
dial_in-Serves ok finished h e = unmoved finished h e

after_turn-passed :
    (r : Source) (p : Pipe) (h : Handler) → (after_turn r p h).forwarded ≡ p.to_b.delivered
unfolding after_turn finish
after_turn-passed r p h = ground arith

-- After a turn nothing waits if the pipe is closed, and else what is left to read.
after_turn-shut :
    (r : Source) (p : Pipe) (h : Handler)
    → is_closed p ≡ true
    → (queue (after_turn r p h)).waiting ≡ []
unfolding after_turn finish waiting_in
after_turn-shut r p h c =
    let k = record h { forwarded = p.to_b.delivered; phase = piping r p } in
    let shut = record k { stream_open = false; upstream_open = false } in
    let none_left = if_yes (is_closed p) [] (bytes r) c in
    if_keeps (λ x. waiting_in x.phase x.sent ≡ []) (p.to_a.ended && p.to_b.ended) (finish k)
      (if is_closed p then shut else k) refl
      (if_keeps (λ x. waiting_in x.phase x.sent ≡ []) (is_closed p) shut k none_left none_left)

after_turn-left :
    (r : Source) (p : Pipe) (h : Handler)
    → is_closed p ≡ false
    → (queue (after_turn r p h)).waiting ≡ bytes r
unfolding after_turn finish waiting_in
after_turn-left r p h o =
    let k = record h { forwarded = p.to_b.delivered; phase = piping r p } in
    let shut = record k { stream_open = false; upstream_open = false } in
    ap (λ x. waiting_in x.phase x.sent)
      (if_no (p.to_a.ended && p.to_b.ended) (finish k) (if is_closed p then shut else k)
          (ground arith)
        ∙ if_no (is_closed p) shut k o)
    ∙ if_no (is_closed p) [] (bytes r) o

turn_open-passes :
    (d : Direction) (live : Bool) (m : Move) (src : Source) (p : Pipe)
    → is_closed p ≡ false
    → let (p', r) = turn d live m src p in
      (chunk : Text) × (p'.to_b.delivered ≡ p.to_b.delivered ++ chunk)
      × ((bytes src ≡ chunk ++ bytes r)
          ⊎ ((is_closed p' ≡ true) × (left : Text) × (bytes src ≡ chunk ++ left)))
unfolding pipe_turn
turn_open-passes into_a live m src p o = ([], sym (append-nil p.to_b.delivered), inl refl)
turn_open-passes into_b live m src p o =
    let (t, rest) = read_stream live m src in
    let all = sym (read_stream_lem live m src) in
    elim (into_b_turn p t o) [
      | inl went ↦ (
        t.chunk,
        went,
        inl (
            all ∙ ap (λ r. t.chunk ++ bytes r) (sym (if_no p.to_b.ended src rest (to_b-open p o)))),
      )
      | inr (c, part) ↦ (
        take t.wrote t.chunk,
        part,
        inr (
          c,
          drop t.wrote t.chunk ++ bytes rest,
          all ∙ sym (split_chunk t.wrote t.chunk (bytes rest)),
        ),
      )
    ]

-- The turn of a pipe that is still open.
open-Serves :
    (p' : Pipe) (r : Source) (h : Handler) (q : Queue) (chunk : Text)
    → p'.to_b.delivered ≡ q.passed ++ chunk
    → (q.waiting ≡ chunk ++ bytes r)
      ⊎ ((is_closed p' ≡ true) × (left : Text) × (q.waiting ≡ chunk ++ left))
    → Serves q (queue (after_turn r p' h))
open-Serves p' r h q chunk went (inl front) = record {
  chunk = chunk;
  left = bytes r;
  front = front;
  passes = after_turn-passed r p' h ∙ went;
  rest = elim (Bool-cases (is_closed p')) [
    | inl c ↦ inr (after_turn-shut r p' h c)
    | inr o ↦ inl (after_turn-left r p' h o)
  ];
}
open-Serves p' r h q chunk went (inr (c, left, front)) = record {
  chunk = chunk;
  left = left;
  front = front;
  passes = after_turn-passed r p' h ∙ went;
  rest = inr (after_turn-shut r p' h c);
}

piping-Serves :
    (live : Bool) (m : Move) (n : Counters) (src : Source) (p : Pipe) (h : Handler)
    → Copying src p h
    → Serves (queue_in (piping src p) h) (queue (move_in live m n (piping src p) h).0)
unfolding waiting_in
piping-Serves live m n src p h a =
    let q = with_counters n p in
    let (p', r) = turn m.direction live m src q in
    elim (Bool-cases (is_closed p)) [
      | inl c ↦
          let (c', same) = turn_closed m.direction live m src q c in
          keeps_queue _ _ (after_turn-passed r p' h ∙ same ∙ a.delivered)
            (inr (after_turn-shut r p' h c'))
      | inr o ↦
          let (chunk, went, front) = turn_open-passes m.direction live m src q o in
          subst
            (λ w. Serves (record { passed = h.forwarded; waiting = w }) (queue (after_turn r p' h)))
            (sym (if_no (is_closed p) [] (bytes src) o))
            (open-Serves p' r h (record { passed = h.forwarded; waiting = bytes src }) chunk
              (went ∙ ap (λ x. x ++ chunk) a.delivered) front)
    ]

pub move_in-Serves :
    (live : Bool) (m : Move) (n : Counters) (ph : Phase) (h : Handler)
    → ph ≡ h.phase
    → At ph h
    → Serves (queue_in ph h) (queue (move_in live m n ph h).0)
unfolding At
move_in-Serves live m n (piping src p) h e a = piping-Serves live m n src p h a
move_in-Serves live m n peeking h e a = unmoved peeking h e
move_in-Serves live m n (dialling src) h e a = unmoved (dialling src) h e
move_in-Serves live m n finished h e a = unmoved finished h e
