-- ===== src/Status/Log.antt =====
-- The loop of the status log (`startStatusLoggerTun` and `startStatusLogger` of internal/yggss/stats.go,
-- `StartClientStatusLog` and `StartStatusLogger` of internal/yggss/api.go) over its ticks.
use yggss.Base.{
  ℕ, Bool, false, none, some, List, [], ◌∷◌, map, Text, ℤ, pos, negsuc, ltb, if◌then◌else◌,
}
use yggss.Stream.Pipe.{TunnelCounters}
use yggss.Tunnel.State.{Tunnel}
use yggss.Tunnel.Client.{path_state}
use yggss.Status.Transit.{Logger}
use yggss.Status.Report.{Line, Answers, Setup, report}

-- The time between two reports; with none there is no log.
abbrev pub is_period : ℤ → Bool
is_period (pos n) = ltb 0 n
is_period (negsuc n) = false

-- `sl.report()` for each tick, in their order.
unfoldable pub reports : Logger → List (Setup × Answers) → List (List Line)
reports l [] = []
reports l ((s, a) ∷ ticks) = let (l', lines) = report s a l in lines ∷ reports l' ticks

abbrev new_logger : Logger
new_logger = record { prev_link = 0; prev_session = 0; started = false }

-- `startStatusLoggerTun`, with what the pointers and the function that it is given read at each tick.
unfoldable pub start_status_logger_tun : ℤ → List (Setup × Answers) → List (List Line)
unfolding reports
start_status_logger_tun interval ticks = if is_period interval then reports new_logger ticks else []

-- `startStatusLogger`, the log of a server.
unfoldable pub start_status_logger : ℤ → Text → List Answers → List (List Line)
unfolding start_status_logger_tun
start_status_logger interval key ticks =
    start_status_logger_tun interval (
      map (λ a. (record { server_key = key; tun_rx = none; tun_tx = none; state = none }, a)) ticks)

-- What a tick of a client's log reads.
pub record Reading : Type 0 where
  pub now : ℕ
  pub tunnel : Tunnel
  pub rx : TunnelCounters
  pub tx : TunnelCounters
  pub answers : Answers

abbrev pub setup_at : Text → Reading → Setup × Answers
setup_at key r = (
  record {
    server_key = key;
    tun_rx = some r.rx;
    tun_tx = some r.tx;
    state = some (path_state r.now r.tunnel);
  },
  r.answers,
)

-- `StartClientStatusLog`.
unfoldable pub start_client_status_log : ℤ → Text → List Reading → List (List Line)
unfolding start_status_logger_tun
start_client_status_log interval key ticks =
    start_status_logger_tun interval (map (setup_at key) ticks)
