-- ===== src/Tunnel/Goroutine/Turn.antt =====
-- A turn of the prober (`startProber` of internal/yggss/direct.go) in critical sections. What
-- `select`, the tickers and the streak do to the local variables are steps of their own.
use yggss.Base.{ℕ, ◌+◌, ◌-◌, Bool, true, false, ltb, leb, if◌then◌else◌}
use yggss.Tunnel.State.{h2h3, mesh_probing, close_conn, cooldown, Opened, stream, fail}
use yggss.Tunnel.Direct.{
  is_verified, mark_verified, mark_failed, verify_ttl, set_probe_state, conn_alive, probe_healthy,
}
use yggss.Tunnel.Prober.{
  probe_idle_limit, probe_fail_streak_limit, Wake, Echo, echoed, ProbeAnswers, fast_cadence,
  slow_cadence, set_streak, is_h2h3, receive,
}
use yggss.Tunnel.Goroutine.{Goroutine, act, ask, test, done, direct_stream, drop_then}

-- A failed probe.
unfoldable pub failed_steps : ℕ → Goroutine
failed_steps now =
    ask conn_alive
      (act (λ t. set_streak (t.prober.fail_streak + 1) t)
        (ask (λ t. leb probe_fail_streak_limit t.prober.fail_streak) (drop_then now done) done))
      (drop_then now (act (set_streak 0) (act fast_cadence done)))

-- The round trip succeeded.
unfoldable pub answered_steps : Bool → ProbeAnswers → Goroutine
answered_steps was_verified a = act (set_streak 0) (
    test (probe_healthy (a.done - a.now))
      (act (λ t. mark_verified a.done (verify_ttl t.direct) t)
        (act (set_probe_state h2h3) (act slow_cadence done)))
      (if was_verified then drop_then a.done done else done))

unfoldable pub echo_steps : Bool → ProbeAnswers → Echo → Goroutine
unfolding answered_steps failed_steps
echo_steps was_verified a echoed = answered_steps was_verified a
echo_steps was_verified a _ = failed_steps a.done

unfoldable pub opened_steps : Bool → ProbeAnswers → Opened → Goroutine
unfolding echo_steps failed_steps
opened_steps was_verified a (stream c) =
    act (λ t. if a.dies then record t { net = close_conn c t.net } else t)
      (echo_steps was_verified a a.echo)
opened_steps was_verified a (fail cooldown) = done
opened_steps was_verified a (fail _) = failed_steps a.done

unfoldable pub idle_steps : ℕ → Goroutine
idle_steps now =
    ask (is_verified now)
      (act mark_failed (act (set_probe_state mesh_probing) (act fast_cadence done))) done

-- `client.PathState() == pathH2H3`, and what follows; the two mutexes are taken one after the other.
unfoldable pub sync_steps : ℕ → Goroutine → Goroutine
sync_steps now g =
    let sync = act (set_probe_state mesh_probing) g in
    ask (λ t. t.client.has_direct)
      (ask (is_verified now) sync (ask (λ t. is_h2h3 t.client.probe_state) sync g)) g

unfoldable pub awake_steps : ProbeAnswers → Goroutine
unfolding opened_steps sync_steps
awake_steps a =
    ask (is_verified a.now) (direct_stream a.opening (opened_steps true a))
      (sync_steps a.now (direct_stream a.opening (opened_steps false a)))

unfoldable pub turn_goroutine : Wake → ProbeAnswers → Goroutine
unfolding idle_steps awake_steps
turn_goroutine w a = act (receive w) (
    if a.mesh_active
    then ask (λ t. ltb probe_idle_limit (a.now - t.client.last_active)) (idle_steps a.now)
        (awake_steps a)
    else done)
