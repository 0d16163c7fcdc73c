-- ===== src/Tests/Races.antt =====
-- Runs of the client (internal/yggss/direct.go) in which a goroutine comes between two critical sections
-- of another one, or after `Close`.
use yggss.Base.{ℕ, ◌≡◌, refl, true, none, put, List, [], ◌∷◌}
use yggss.Tunnel.State.{close_conn}
use yggss.Tunnel.Direct.{
  close_direct, open_direct, probe_healthy, set_probe_state, mark_verified, verify_ttl, is_verified,
  drop_conn_locked, cool_down, mark_failed, set_owner_state,
}
use yggss.Tunnel.Client.{open_stream, after_direct, new_client, run_client, handle}
use yggss.Tunnel.Prober.{
  prober_turn, probe_opened, sync_state, timer, echoed, receive, set_streak, slow_cadence,
}
use yggss.Tunnel.Goroutine.{done, lock_direct, spawn_watch, handle_goroutine, watch_goroutine}
use yggss.Tunnel.Goroutine.Turn.{turn_goroutine}
use yggss.Tunnel.Goroutine.System.{
  System, direct_ends, loses, starts, Steps, next, at_rest, schedule, schedule-Steps,
}
use yggss.Tunnel.Events.{accepted, turn, close, step, run, unwatch_direct}
use yggss.Tunnel.Goroutine.Leaks.{unrestricted}
use yggss.Tests.Goroutines.{begun, answers, mesh_answers, probe_answers, started, started-Steps}

-- The prober has its echo and its healthy round trip; then the connection closes and its watcher drops
-- it; then the prober marks the path as verified.
abbrev until_healthy : List ℕ
until_healthy = 1 ∷ 1 ∷ 1 ∷ 1 ∷ 1 ∷ 1 ∷ 1 ∷ 1 ∷ 1 ∷ 1 ∷ 1 ∷ []

abbrev cut_off : System
cut_off =
    let s = schedule until_healthy (started echoed) in
    record s { tunnel = record (s.tunnel) { net = close_conn 0 s.tunnel.net } }

abbrev watched : System
watched = record {
  tunnel = unwatch_direct 0 cut_off.tunnel;
  pool = put 2 (watch_goroutine 9 0) cut_off.pool;
}

abbrev raced : System
raced = schedule (2 ∷ 2 ∷ 2 ∷ 1 ∷ 1 ∷ 1 ∷ []) watched

cut_off-watched : cut_off.tunnel.net.direct_watch 0 ≡ true
unfolding schedule turn_goroutine handle_goroutine run_client new_client receive is_verified
    lock_direct probe_healthy set_streak spawn_watch
cut_off-watched = refl

cut_off-free : (schedule until_healthy (started echoed)).pool 2 ≡ done
unfolding schedule turn_goroutine handle_goroutine run_client new_client receive is_verified
    lock_direct probe_healthy set_streak spawn_watch
cut_off-free = refl

raced-Steps : Steps unrestricted (at_rest begun) raced
raced-Steps =
    let before =
      schedule-Steps unrestricted until_healthy _ _ (started-Steps unrestricted echoed tt tt) in
    schedule-Steps unrestricted (2 ∷ 2 ∷ 2 ∷ 1 ∷ 1 ∷ 1 ∷ []) _ watched (
      next (next before (loses 0)) (
        starts 2 (watch_goroutine 9 0) watched.tunnel none cut_off-free
          (direct_ends 9 0 cut_off-watched refl)))

verified_without_connection :
    (is_verified 10 raced.tunnel ≡ true) × (raced.tunnel.direct.qconn ≡ none)
unfolding schedule turn_goroutine handle_goroutine run_client new_client receive is_verified
    lock_direct probe_healthy set_streak spawn_watch slow_cadence set_probe_state mark_verified
    verify_ttl watch_goroutine unwatch_direct drop_conn_locked cool_down mark_failed set_owner_state
verified_without_connection = (refl, refl)

-- `Close` leaves the path verified, and the next call dials it again: a second UDP socket is open, and
-- the first still is.
reopened_after_close :
    (run begun (
      turn timer (probe_answers echoed)
      ∷ close
      ∷ accepted 20 answers mesh_answers
      ∷ [])).net.sockets
    ≡ 2
unfolding run step handle open_stream close_direct prober_turn run_client new_client probe_opened
    open_direct sync_state after_direct
reopened_after_close = refl
