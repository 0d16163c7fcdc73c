-- ===== src/Server/Handler.antt =====
-- One goroutine of `handleStream` (internal/yggss/tunnel.go) or of the loop in `serveDirectConn`
-- (internal/yggss/direct.go), step by step.
use yggss.Base.{
  ℕ, ◌*◌, Bool, true, false, ◌&&◌, Option, none, [], ◌∷◌, take, drop, Text, ltb, if◌then◌else◌,
}
use yggss.Stream.Peek.{Peeked, handled, user, handle_probe_stream, Source, read}
use yggss.Stream.Pipe.{
  TunnelCounters, Turn, Pipe, Direction, into_a, into_b, is_closed, closed_read, start_copy,
  pipe_turn,
}

-- Where the goroutine stands: in `handleProbeStream`, in `DialTimeout`, in `pipe`, or at its end.
pub data Phase : Type 0 where
  peeking : Phase
  dialling : Source → Phase
  piping : Source → Pipe → Phase
  finished : Phase

-- A stream of the connection `conn` with its handler. `sent` is what the client sends on it from
-- first to last, and `forwarded` what the shadowsocks server has got; the code keeps neither.
pub record Handler : Type 0 where
  pub conn : ℕ
  pub sent : Text
  pub forwarded : Text
  pub phase : Phase
  pub stream_open : Bool
  pub upstream_open : Bool

unfoldable pub accept_stream : ℕ → Text → Handler
accept_stream c sent = record {
  conn = c;
  sent = sent;
  forwarded = [];
  phase = peeking;
  stream_open = true;
  upstream_open = false;
}

-- A `return`: the deferred calls close what is open.
unfoldable pub finish : Handler → Handler
finish h = record h { phase = finished; stream_open = false; upstream_open = false }

abbrev pub peeked : Peeked → Handler → Handler
peeked handled h = finish h
peeked (user consumed rest) h = record h {
  phase = dialling (record { prefix = consumed; rest = rest });
}

abbrev pub peek_in : ℕ → Phase → Handler → Handler
peek_in k peeking h = peeked (handle_probe_stream (take k h.sent) (drop k h.sent)) h
peek_in k _ h = h

-- `handleProbeStream`, where `k` bytes arrive before the deadline. A probe is answered here.
unfoldable pub peek : ℕ → Handler → Handler
peek k h = peek_in k h.phase h

abbrev pub dialled : Bool → Source → Handler → Handler
dialled true src h = record h {
  phase = piping src (record { to_a = start_copy none; to_b = start_copy none });
  upstream_open = true;
}
dialled false src h = finish h

abbrev pub dial_in : Bool → Phase → Handler → Handler
dial_in ok (dialling src) h = dialled ok src h
dial_in ok _ h = h

-- `DialTimeout`, and the start of `pipe`.
unfoldable pub dial : Bool → Handler → Handler
dial ok h = dial_in ok h.phase h

-- `pipeBufSize`.
unfoldable pub pipe_buf_size : ℕ
pipe_buf_size = 256 * 1024

-- What a `Read` with the buffer of a copy returns at most, where `n` bytes have come.
unfoldable pub buffered : ℕ → ℕ
buffered n = if ltb pipe_buf_size n then pipe_buf_size else n

-- What one turn of a copy meets: how many bytes of the stream have come, the bytes that the
-- shadowsocks server answers, and what fails.
pub record Move : Type 0 where
  pub direction : Direction
  pub size : ℕ
  pub answer : Text
  pub read_err : Bool
  pub write_ok : Bool
  pub wrote : ℕ

-- What `src.Read` returns in a copy to the shadowsocks server, and what it leaves. The bytes that the
-- peek consumed are in memory: reading them does not fail. On a lost connection the stream yields
-- nothing after them.
unfoldable pub read_stream : Bool → Move → Source → Turn × Source
read_stream live m src =
    let (chunk, rest) = read (buffered m.size) src in
    elim src.prefix [
      | [] ↦
          if live
          then (
            record { chunk = chunk; read_err = m.read_err; write_ok = m.write_ok; wrote = m.wrote },
            rest,
          )
          else (closed_read, src)
      | b ∷ bs ↦
          let (first, left) = read pipe_buf_size src in
          (record { chunk = first; read_err = false; write_ok = m.write_ok; wrote = m.wrote }, left)
    ]

unfoldable pub read_answer : Bool → Move → Turn
read_answer live m = record {
  chunk = m.answer;
  read_err = m.read_err;
  write_ok = m.write_ok && live;
  wrote = m.wrote;
}

-- The counters of the server are shared by all its handlers; a handler of the direct tunnel has none.
pub record Counters : Type 0 where
  pub rx : Option TunnelCounters
  pub tx : Option TunnelCounters

abbrev pub with_counters : Counters → Pipe → Pipe
with_counters n p = record {
  to_a = record (p.to_a) { counter = n.rx };
  to_b = record (p.to_b) { counter = n.tx };
}

abbrev pub counters_of : Pipe → Counters
counters_of p = record { rx = p.to_a.counter; tx = p.to_b.counter }

-- After a turn: one copy that has ended closes both ends, and the goroutine returns after both.
unfoldable pub after_turn : Source → Pipe → Handler → Handler
unfolding finish
after_turn src p h =
    let h' = record h { forwarded = p.to_b.delivered; phase = piping src p } in
    if p.to_a.ended && p.to_b.ended
    then finish h'
    else if is_closed p
    then record h' { stream_open = false; upstream_open = false }
    else h'

abbrev pub turn : Direction → Bool → Move → Source → Pipe → Pipe × Source
turn into_a live m src p = (pipe_turn p (into_a, read_answer live m), src)
turn into_b live m src p =
    let (t, rest) = read_stream live m src in
    (pipe_turn p (into_b, t), if p.to_b.ended then src else rest)

abbrev pub move_in : Bool → Move → Counters → Phase → Handler → Handler × Counters
move_in live m n (piping src p) h =
    let (p', rest) = turn m.direction live m src (with_counters n p) in
    (after_turn rest p' h, counters_of p')
move_in live m n _ h = (h, n)

-- A turn of one of the two copies of `pipe(src, upstream, &s.rx, &s.tx)`; `live` tells whether the
-- connection of the stream is.
unfoldable pub move : Bool → Move → Counters → Handler → Handler × Counters
move live m n h = move_in live m n h.phase h
