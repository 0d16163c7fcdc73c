-- ===== src/Stream/Totals.antt =====
-- What the traffic counters of a client hold, and what the status log prints of them
-- (internal/yggss/stats.go).
use yggss.Base.{ℕ, ◌≡◌, refl, Bool, true, false, Option, none, some, List, [], ◌∷◌, arith}
use yggss.Stream.Pipe.{
  TunnelCounters, Turn, Pipe, Direction, into_a, into_b, start_copy, pipe_turn, run_pipe, pipe,
}

-- The two numbers of the line "tunnel traffic" for the counters `&cl.rx` and `&cl.tx`.
unfoldable pub reported : Option TunnelCounters → Option TunnelCounters → Option (ℕ × ℕ)
reported (some r) (some t) = some (r.rx, t.tx)
reported _ _ = none

abbrev is_some : Option TunnelCounters → Bool
is_some none = false
is_some (some c) = true

abbrev rx_of : Option TunnelCounters → Option ℕ
rx_of none = none
rx_of (some c) = some c.rx

reported-of :
    (a b : Option TunnelCounters) (r : ℕ)
    → rx_of a ≡ some r
    → is_some b ≡ true
    → (n : ℕ) × (reported a b ≡ some (r, n))
unfolding reported
reported-of (some a) (some b) r e h = (b.tx, ground arith)
reported-of none b r e h = cc
reported-of (some a) none r e h = cc

run_pipe-rx :
    (ts : List (Direction × Turn)) (p : Pipe)
    → (rx_of (run_pipe p ts).to_a.counter ≡ rx_of p.to_a.counter)
      × (is_some (run_pipe p ts).to_b.counter ≡ is_some p.to_b.counter)
unfolding run_pipe pipe_turn
run_pipe-rx [] p = (refl, refl)
run_pipe-rx ((into_a, t) ∷ ts) p = ground (arith, run_pipe-rx ts (pipe_turn p (into_a, t)))
run_pipe-rx ((into_b, t) ∷ ts) p = ground (arith, run_pipe-rx ts (pipe_turn p (into_b, t)))

-- Whatever is copied, the number that the status log prints as `rx` stays what it was before: no
-- copy ever adds to it.
pipe-rx_stuck :
    (r t : TunnelCounters) (ts : List (Direction × Turn))
    → let p = pipe (some r) (some t) ts in
      (n : ℕ) × (reported p.to_a.counter p.to_b.counter ≡ some (r.rx, n))
unfolding pipe
pipe-rx_stuck r t ts =
    let p : Pipe = record { to_a = start_copy (some r); to_b = start_copy (some t) } in
    let (same, there) = run_pipe-rx ts p in reported-of _ _ r.rx same there
