-- ===== src/Stream/Pipe.antt =====
-- `tunnelCounters` and `pipe` (internal/yggss/tunnel.go). The two copying goroutines are
-- interleaved in any order; a turn of one is a read and, if it brought bytes, a write.
use yggss.Base.{
  ℕ, ◌+◌, ◌%◌, ◌^◌, Bool, true, false, not, ◌||◌, ◌&&◌, Option, none, some, List, [], ◌∷◌, ◌++◌,
  length, take, Text, ltb, if◌then◌else◌,
}

-- The fields are uint64.
pub record TunnelCounters : Type 0 where
  pub rx : ℕ
  pub tx : ℕ

abbrev pub u64 : ℕ → ℕ
u64 n = n % 2 ^ 64

unfoldable pub add_rx : ℕ → TunnelCounters → TunnelCounters
add_rx n c = if ltb 0 n then record c { rx = u64 (c.rx + n) } else c

unfoldable pub add_tx : ℕ → TunnelCounters → TunnelCounters
add_tx n c = if ltb 0 n then record c { tx = u64 (c.tx + n) } else c

-- A counter may be nil.
unfoldable pub count : ℕ → Option TunnelCounters → Option TunnelCounters
unfolding add_tx
count n none = none
count n (some c) = some (add_tx n c)

-- What a turn of `copyCount` meets: the bytes that `Read` returns, whether it returns an error with
-- them, whether `Write` succeeds, and how many bytes it writes where it does not.
pub record Turn : Type 0 where
  pub chunk : Text
  pub read_err : Bool
  pub write_ok : Bool
  pub wrote : ℕ

-- One `copyCount`: what its destination has got, whether it has ended, and its counter.
pub record Copy : Type 0 where
  pub delivered : Text
  pub ended : Bool
  pub counter : Option TunnelCounters

unfoldable pub copy_turn : Turn → Copy → Copy
unfolding count
copy_turn t c =
    let counted = record c { counter = count (length t.chunk) c.counter } in
    if c.ended
    then c
    else if ltb 0 (length t.chunk) && not t.write_ok
    then record counted { delivered = c.delivered ++ take t.wrote t.chunk; ended = true }
    else if ltb 0 (length t.chunk)
    then record counted { delivered = c.delivered ++ t.chunk; ended = t.read_err }
    else record c { ended = t.read_err }

-- `pipe(a, b, rx, tx)`, of which `a` is a QUIC stream and `b` a TCP connection: `to_a` copies from `b` to
-- `a` and has the counter `rx`.
pub record Pipe : Type 0 where
  pub to_a : Copy
  pub to_b : Copy

pub data Direction : Type 0 where
  into_a into_b : Direction

-- Both endpoints are closed as soon as one copy has ended.
abbrev pub is_closed : Pipe → Bool
is_closed p = p.to_a.ended || p.to_b.ended

abbrev pub closed_read : Turn
closed_read = record { chunk = []; read_err = true; write_ok = false; wrote = 0 }

-- Of the closed ends, `b` is a TCP connection, which can neither be read nor written; `a` is a QUIC
-- stream, of which `Close` closes the side that sends, so that it can still be read.
abbrev pub seen : Pipe → Direction → Turn → Turn
seen p into_a t = if is_closed p then closed_read else t
seen p into_b t = if is_closed p then record t { write_ok = false; wrote = 0 } else t

unfoldable pub pipe_turn : Pipe → Direction × Turn → Pipe
unfolding copy_turn
pipe_turn p (into_a, t) = record p { to_a = copy_turn (seen p into_a t) p.to_a }
pipe_turn p (into_b, t) = record p { to_b = copy_turn (seen p into_b t) p.to_b }

abbrev pub start_copy : Option TunnelCounters → Copy
start_copy counter = record { delivered = []; ended = false; counter = counter }

unfoldable pub run_pipe : Pipe → List (Direction × Turn) → Pipe
run_pipe p [] = p
run_pipe p (t ∷ ts) = run_pipe (pipe_turn p t) ts

unfoldable pub pipe : Option TunnelCounters → Option TunnelCounters → List (Direction × Turn) → Pipe
unfolding run_pipe
pipe rx tx = run_pipe (record { to_a = start_copy rx; to_b = start_copy tx })
