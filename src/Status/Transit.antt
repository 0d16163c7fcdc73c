-- ===== src/Status/Transit.antt =====
-- `reportTransit` of internal/yggss/stats.go: the estimate of the traffic that the node relays for
-- others. Counters are uint64, differences int64; an int64 is kept as its 64 bits.
use yggss.Base.{
  ℕ, ◌+◌, ◌-◌, ◌/◌, ◌%◌, ◌^◌, ◌≡◌, ◌≤◌, ◌<◌, ◌⊎◌, Bool, true, false, ◌&&◌, ◌||◌, not, Option, none,
  some, List, [], ◌∷◌, ltb, if◌then◌else◌, arith,
}
use yggss.Status.Size.{Size, format_bytes}

-- `int64(a) - int64(b)`, in bits.
unfoldable pub minus64 : ℕ → ℕ → ℕ
minus64 a b = (a + (2 ^ 64 - b % 2 ^ 64)) % 2 ^ 64

-- `x < y` for int64.
unfoldable pub less64 : ℕ → ℕ → Bool
less64 x y = ltb ((x + 2 ^ 63) % 2 ^ 64) ((y + 2 ^ 63) % 2 ^ 64)

abbrev pub transit_threshold : ℕ
transit_threshold = 2 ^ 20

-- `core.SessionInfo`, the fields that the code reads.
pub record Session : Type 0 where
  pub rx_bytes : ℕ
  pub tx_bytes : ℕ

-- The loop over `Sessions()`, from a sum on.
unfoldable pub session_bytes : ℕ → List Session → ℕ
session_bytes sum [] = sum
session_bytes sum (s ∷ ss) = session_bytes ((sum + (s.rx_bytes + s.tx_bytes)) % 2 ^ 64) ss

-- The fields of `statusLogger` that change.
pub record Logger : Type 0 where
  pub prev_link : ℕ
  pub prev_session : ℕ
  pub started : Bool

-- What the warning prints: the volume, and the two numbers of the percentage.
pub record Warning : Type 0 where
  pub size : Size
  pub transit : ℕ
  pub d_link : ℕ

-- The tests after the counters are stored. Only a positive `dLink` is divided by 5.
unfoldable pub judge : ℕ → ℕ → Option Warning
unfolding minus64 less64
judge d_link d_session =
    let transit = minus64 d_link d_session in
    if not (less64 0 d_link) || less64 d_session 0
    then none
    else if less64 transit_threshold transit && less64 (d_link / 5) transit
    then some (record { size = format_bytes transit; transit = transit; d_link = d_link })
    else none

unfoldable pub report_transit : ℕ → List Session → Logger → Logger × Option Warning
unfolding judge session_bytes minus64
report_transit link_bytes sessions s =
    let bytes = session_bytes 0 sessions in
    let stored : Logger = record { prev_link = link_bytes; prev_session = bytes; started = true } in
    if not s.started
    then (stored, none)
    else (stored, judge (minus64 link_bytes s.prev_link) (minus64 bytes s.prev_session))

-- What the warning is for, without machine arithmetic: of `link` bytes on the peerings only `own`
-- belong to this node, and the rest is more than 1 MiB and more than a fifth.
pub estimate : ℕ → ℕ → Option Warning
estimate link own =
    if ltb (own + 2 ^ 20) link && ltb (link / 5) (link - own)
    then some (record { size = format_bytes (link - own); transit = link - own; d_link = link })
    else none

minus64_lem : (a d : ℕ) → a < 2 ^ 64 → d < 2 ^ 63 → minus64 ((a + d) % 2 ^ 64) a ≡ d
unfolding minus64
minus64_lem a d ha hd = omega arith

judge_lem : (link own : ℕ) → link < 2 ^ 63 → own < 2 ^ 63 → judge link own ≡ estimate link own
unfolding judge estimate
judge_lem link own hl ho = ground arith

-- When, since the last report, the peerings have moved `link` bytes and the sessions of the node
-- `own` bytes, both below 2^63, the warning is the one of the estimate, even if a counter has
-- wrapped around 2^64 in between; and the counters are stored for the next report.
pub report_transit_lem :
    (link own : ℕ) (sessions : List Session) (s : Logger)
    → s.started ≡ true
    → s.prev_link < 2 ^ 64
    → s.prev_session < 2 ^ 64
    → link < 2 ^ 63
    → own < 2 ^ 63
    → session_bytes 0 sessions ≡ (s.prev_session + own) % 2 ^ 64
    → let now = (s.prev_link + link) % 2 ^ 64 in
      report_transit now sessions s ≡ (
        record { prev_link = now; prev_session = session_bytes 0 sessions; started = true },
        estimate link own,
      )
unfolding report_transit
report_transit_lem link own sessions s on hl hs h h' same = grind (
  arith,
  minus64_lem s.prev_link link hl h,
  minus64_lem s.prev_session own hs h',
  judge_lem link own h h',
)

-- No warning is written by the first report after a start or after a report without peerings, and
-- none when the counters, all below 2^63, show that the peerings moved nothing or that one of the
-- two sums went back, as they do when a connection is replaced.
report_transit-silent :
    (link : ℕ) (sessions : List Session) (s : Logger)
    → link < 2 ^ 63
    → session_bytes 0 sessions < 2 ^ 63
    → s.prev_link < 2 ^ 63
    → s.prev_session < 2 ^ 63
    → (s.started ≡ false) ⊎ ((link ≤ s.prev_link) ⊎ (session_bytes 0 sessions < s.prev_session))
    → (report_transit link sessions s).1 ≡ none
unfolding report_transit judge minus64 less64
report_transit-silent link sessions s hl hs hp hq why = ground arith
