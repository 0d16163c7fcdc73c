-- ===== src/Tunnel/Ownership/Run.antt =====
-- Whatever happens to a client, no connection and no QUIC transport leaks.
use yggss.Base.{ltb, ◌+◌, ◌-◌, ℕ, ◌≡◌, refl, Bool, false, List, [], ◌∷◌, arith, ℤ, if_keeps}
use yggss.Tunnel.State.{h2h3, mesh_probing, cooldown, Opened, stream, fail, Tunnel}
use yggss.Tunnel.Direct.{
  open_direct, is_verified, probe_healthy, watch_conn, close_direct, is_current, stop_prober,
}
use yggss.Tunnel.Client.{new_client, run_client}
use yggss.Tunnel.Prober.{
  probe_idle_limit, Wake, timer, ProbeAnswers, Echo, echoed, set_streak, fast_cadence, slow_cadence,
  probe_failed, probe_answered, probe_round_trip, probe_echo, probe_opened, sync_state, probe_idle,
  probe, receive, prober_turn,
}
use yggss.Tunnel.Events.{
  Event, called, accepted, turn, direct_woken, mesh_woken, closed, close, direct_wake, mesh_wake,
  step, run, unwatch_direct,
}
use yggss.Tunnel.Ownership.{
  mark_failed-Owned, mark_verified-Owned, set_probe_state-Owned, Owned, Owned-of_same,
  drop_conn_locked-Owned, drop_and_fail-Owned, close_conn-Owned, open_direct-Owned,
}
use yggss.Tunnel.Ownership.Mesh.{handle-Owned}

set_streak-Owned : (k : ℕ) (t : Tunnel) → Owned t → Owned (set_streak k t)
unfolding set_streak
set_streak-Owned k t h = Owned-of_same t _ refl refl refl refl h

fast_cadence-Owned : (t : Tunnel) → Owned t → Owned (fast_cadence t)
unfolding fast_cadence
fast_cadence-Owned t h = Owned-of_same t _ refl refl refl refl h

slow_cadence-Owned : (t : Tunnel) → Owned t → Owned (slow_cadence t)
unfolding slow_cadence
slow_cadence-Owned t h = Owned-of_same t _ refl refl refl refl h

probe_failed-Owned : (now : ℕ) (t : Tunnel) → Owned t → Owned (probe_failed now t)
unfolding probe_failed
probe_failed-Owned now t h =
    let counted = set_streak-Owned (t.prober.fail_streak + 1) t h in
    if_keeps Owned _ _ _ (if_keeps Owned _ _ _ (drop_and_fail-Owned now _ counted) counted)
      (fast_cadence-Owned _ (set_streak-Owned 0 _ (drop_and_fail-Owned now t h)))

probe_healthy-Owned : (rtt : ℕ) (t : Tunnel) → Owned t → Owned (probe_healthy rtt t).0
unfolding probe_healthy
probe_healthy-Owned rtt t h =
    Owned-of_same t _ (ground arith) (ground arith) (ground arith) (ground arith) h

probe_answered-Owned :
    (was : Bool) (a : ProbeAnswers) (t : Tunnel) → Owned t → Owned (probe_answered was a t)
unfolding probe_answered
probe_answered-Owned was a t h =
    let h' = probe_healthy-Owned (a.done - a.now) _ (set_streak-Owned 0 t h) in
    if_keeps Owned _ _ _
      (slow_cadence-Owned _ (set_probe_state-Owned h2h3 _ (mark_verified-Owned a.done _ _ h')))
      (if_keeps Owned _ _ _ (drop_and_fail-Owned a.done _ h') h')

probe_echo-Owned :
    (was : Bool) (a : ProbeAnswers) (e : Echo) (t : Tunnel) → Owned t → Owned (probe_echo was a e t)
unfolding probe_echo
probe_echo-Owned was a echoed t h = probe_answered-Owned was a t h
probe_echo-Owned was a _ t h = probe_failed-Owned _ t h

probe_round_trip-Owned :
    (was : Bool) (a : ProbeAnswers) (c : ℕ) (t : Tunnel)
    → Owned t
    → Owned (probe_round_trip was a c t)
unfolding probe_round_trip
probe_round_trip-Owned was a c t h =
    probe_echo-Owned was a a.echo _ (if_keeps Owned _ _ t (close_conn-Owned c t h) h)

probe_opened-Owned :
    (was : Bool) (a : ProbeAnswers) (r : Opened) (t : Tunnel)
    → Owned t
    → Owned (probe_opened was a r t)
unfolding probe_opened
probe_opened-Owned was a (stream c) t h = probe_round_trip-Owned was a c t h
probe_opened-Owned was a (fail cooldown) t h = h
probe_opened-Owned was a (fail _) t h = probe_failed-Owned _ t h

sync_state-Owned : (now : ℕ) (t : Tunnel) → Owned t → Owned (sync_state now t)
unfolding sync_state
sync_state-Owned now t h = if_keeps Owned _ _ t (set_probe_state-Owned mesh_probing t h) h

probe_idle-Owned : (now : ℕ) (t : Tunnel) → Owned t → Owned (probe_idle now t)
unfolding probe_idle
probe_idle-Owned now t h =
    if_keeps Owned _ _ t
      (fast_cadence-Owned _ (set_probe_state-Owned mesh_probing _ (mark_failed-Owned t h))) h

probe-Owned : (a : ProbeAnswers) (t : Tunnel) → Owned t → Owned (probe a t)
unfolding probe
probe-Owned a t h =
    let (t', r) = open_direct a.opening (sync_state a.now t) in
    if_keeps Owned _ _ _ h (
      if_keeps Owned (ltb probe_idle_limit (a.now - t.client.last_active)) _ _
        (probe_idle-Owned a.now t h)
        (probe_opened-Owned (is_verified a.now t) a r t'
          (open_direct-Owned a.opening _ (sync_state-Owned a.now t h))))

receive-Owned : (w : Wake) (t : Tunnel) → Owned t → Owned (receive w t)
unfolding receive
receive-Owned timer t h = Owned-of_same t _ refl refl refl refl h
receive-Owned _ t h = h

watch_conn-Owned : (now c : ℕ) (t : Tunnel) → Owned t → Owned (watch_conn now c t)
unfolding watch_conn
watch_conn-Owned now c t h = if_keeps Owned _ _ t (drop_and_fail-Owned now t h) h

watch_conn-not_current :
    (now c : ℕ) (t : Tunnel) → is_current (watch_conn now c t).direct.qconn c ≡ false
unfolding watch_conn
watch_conn-not_current now c t = ground arith

unwatch_direct-Owned :
    (c : ℕ) (t : Tunnel)
    → is_current t.direct.qconn c ≡ false
    → Owned t
    → Owned (unwatch_direct c t)
unfolding unwatch_direct
unwatch_direct-Owned c t e h = record { same_tr = h.same_tr; at = λ b. ground (arith, h.at b) }

direct_wake-Owned : (now c : ℕ) (t : Tunnel) → Owned t → Owned (direct_wake now c t)
unfolding direct_wake
direct_wake-Owned now c t h =
    if_keeps Owned _ _ t
      (unwatch_direct-Owned c _ (watch_conn-not_current now c t) (watch_conn-Owned now c t h)) h

mesh_wake-Owned : (c : ℕ) (t : Tunnel) → Owned t → Owned (mesh_wake c t)
unfolding mesh_wake
mesh_wake-Owned c t h = record {
  same_tr = ground (arith, h.same_tr);
  at = λ b. ground (arith, h.at b);
}

stop_prober-Owned : (t : Tunnel) → Owned t → Owned (stop_prober t)
unfolding stop_prober
stop_prober-Owned t h =
    Owned-of_same t (stop_prober t) (ground arith) (ground arith) (ground arith) (ground arith) h

close_direct-Owned : (t : Tunnel) → Owned t → Owned (close_direct t)
unfolding close_direct
close_direct-Owned t h = stop_prober-Owned _ (drop_conn_locked-Owned t h)

run_client-Owned :
    (now : ℕ) (listen_ok : Bool) (t : Tunnel) → Owned t → Owned (run_client now listen_ok t)
unfolding run_client
run_client-Owned now listen_ok t h =
    Owned-of_same t (run_client now listen_ok t) (ground arith) (ground arith) (ground arith)
      (ground arith) h

step-Owned : (e : Event) (t : Tunnel) → Owned t → Owned (step t e)
unfolding step prober_turn
step-Owned (called now listen_ok) t h = run_client-Owned now listen_ok t h
step-Owned (accepted now a m) t h = handle-Owned now a m t h
step-Owned (turn w a) t h = if_keeps Owned _ _ t (probe-Owned a _ (receive-Owned w t h)) h
step-Owned (direct_woken now c) t h = direct_wake-Owned now c t h
step-Owned (mesh_woken c) t h = mesh_wake-Owned c t h
step-Owned (closed c) t h = close_conn-Owned c t h
step-Owned close t h = close_direct-Owned t h

run_from-Owned : (es : List Event) (t : Tunnel) → Owned t → Owned (run t es)
unfolding run
run_from-Owned [] t h = h
run_from-Owned (e ∷ es) t h = run_from-Owned es (step t e) (step-Owned e t h)

new_client-Owned :
    (has_direct : Bool) (timeout retry_period : ℤ)
    → Owned (new_client has_direct timeout retry_period)
unfolding new_client
new_client-Owned has_direct timeout retry_period = record {
  same_tr = ground arith;
  at = λ c. ground arith;
}

-- Whatever happens to a client after it is built, every QUIC transport that is not closed
-- belongs to the cached direct connection, every live connection is cached as the direct or the mesh connection, and a
-- goroutine waits for the end of each cached connection.
pub run-Owned :
    (has_direct : Bool) (timeout retry_period : ℤ) (es : List Event)
    → Owned (run (new_client has_direct timeout retry_period) es)
run-Owned has_direct timeout retry_period es =
    run_from-Owned es _ (new_client-Owned has_direct timeout retry_period)
