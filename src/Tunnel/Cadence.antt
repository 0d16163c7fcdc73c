-- ===== src/Tunnel/Cadence.antt =====
-- The two tickers and the failure streak of the prober (internal/yggss/direct.go, from line 642).
use yggss.Base.{
  if_yes, subst, sym, ◌&&◌, if_no, ltb, none, ℕ, ◌-◌, ◌*◌, ◌<◌, ◌≤◌, ◌≡◌, refl, Bool, true, false,
  not, List, [], ◌∷◌, ℤ, arith, ◌∙◌, ap, if_keeps,
}
use yggss.Tunnel.State.{cooldown, Opened, stream, fail, Tunnel, second, close_conn}
use yggss.Tunnel.Direct.{Answers, is_verified, open_direct, conn_alive, close_direct}
use yggss.Tunnel.Client.{
  MeshAnswers, open_mesh, after_direct, open_stream, handle, new_client, run_client,
}
use yggss.Tunnel.Prober.{
  Wake, timer, verified, Echo, echoed, ProbeAnswers, probe_idle_limit, probe_failed, probe_answered,
  probe_echo, probe_round_trip, probe_opened, sync_state, probe_idle, probe, receive, prober_turn,
}
use yggss.Tunnel.Events.{
  Event, called, accepted, turn, direct_woken, mesh_woken, closed, close, direct_wake, mesh_wake,
  step, run,
}

-- Exactly one of the tickers is read while the prober runs.
abbrev OneTicker : Tunnel → Type 0
OneTicker t = t.prober.running ≡ true → t.prober.unverified_c ≡ not t.prober.verified_c

open_direct-prober : (a : Answers) (t : Tunnel) → (open_direct a t).0.prober ≡ t.prober
unfolding open_direct
open_direct-prober a t = ground arith

open_mesh-prober : (m : MeshAnswers) (t : Tunnel) → (open_mesh m t).0.prober ≡ t.prober
unfolding open_mesh
open_mesh-prober m t = ground arith

after_direct-prober :
    (m : MeshAnswers) (r : Opened) (t : Tunnel) → (after_direct m r t).0.prober ≡ t.prober
unfolding after_direct
after_direct-prober m (stream c) t = refl
after_direct-prober m (fail e) t = open_mesh-prober m _ ∙ ground arith

open_stream-prober :
    (now : ℕ) (a : Answers) (m : MeshAnswers) (t : Tunnel)
    → (open_stream now a m t).0.prober ≡ t.prober
unfolding open_stream
open_stream-prober now a m t =
    let (t', r) = open_direct a t in
    ground (arith, after_direct-prober m r t', open_direct-prober a t, open_mesh-prober m t)

handle-prober :
    (now : ℕ) (a : Answers) (m : MeshAnswers) (t : Tunnel) → (handle now a m t).0.prober ≡ t.prober
unfolding handle
handle-prober now a m t = open_stream-prober now a m _

probe_failed-OneTicker : (now : ℕ) (t : Tunnel) → OneTicker t → OneTicker (probe_failed now t)
unfolding probe_failed
probe_failed-OneTicker now t h = ground arith

probe_echo-OneTicker :
    (was : Bool) (a : ProbeAnswers) (e : Echo) (t : Tunnel)
    → OneTicker t
    → OneTicker (probe_echo was a e t)
unfolding probe_echo
probe_echo-OneTicker was a echoed t h = ground arith
probe_echo-OneTicker was a _ t h = probe_failed-OneTicker _ t h

probe_opened-OneTicker :
    (was : Bool) (a : ProbeAnswers) (r : Opened) (t : Tunnel)
    → OneTicker t
    → OneTicker (probe_opened was a r t)
unfolding probe_opened probe_round_trip
probe_opened-OneTicker was a (stream c) t h =
    if_keeps (λ u. OneTicker (probe_echo was a a.echo u)) a.dies _ t
      (probe_echo-OneTicker was a a.echo (record t { net = close_conn c t.net }) h)
      (probe_echo-OneTicker was a a.echo t h)
probe_opened-OneTicker was a (fail cooldown) t h = h
probe_opened-OneTicker was a (fail _) t h = probe_failed-OneTicker _ t h

probe-OneTicker : (a : ProbeAnswers) (t : Tunnel) → OneTicker t → OneTicker (probe a t)
unfolding probe sync_state
probe-OneTicker a t h =
    let s = sync_state a.now t in
    let (t', r) = open_direct a.opening s in
    ground
      (arith, open_direct-prober a.opening s, probe_opened-OneTicker (is_verified a.now t) a r t')

prober_turn-OneTicker :
    (w : Wake) (a : ProbeAnswers) (t : Tunnel) → OneTicker t → OneTicker (prober_turn w a t)
unfolding prober_turn receive
prober_turn-OneTicker timer a t h = if_keeps OneTicker _ _ t (probe-OneTicker a _ h) h
prober_turn-OneTicker _ a t h = if_keeps OneTicker _ _ t (probe-OneTicker a _ h) h

run_client-OneTicker :
    (now : ℕ) (listen_ok : Bool) (t : Tunnel) → OneTicker t → OneTicker (run_client now listen_ok t)
unfolding run_client
run_client-OneTicker now listen_ok t h = ground arith

step-OneTicker : (e : Event) (t : Tunnel) → OneTicker t → OneTicker (step t e)
unfolding step direct_wake mesh_wake close_direct
step-OneTicker (called now listen_ok) t h = run_client-OneTicker now listen_ok t h
step-OneTicker (accepted now a m) t h = ground (arith, handle-prober now a m t)
step-OneTicker (turn w a) t h = prober_turn-OneTicker w a t h
step-OneTicker (direct_woken now c) t h = ground arith
step-OneTicker (mesh_woken c) t h = ground arith
step-OneTicker (closed c) t h = h
step-OneTicker close t h = ground arith

run_from-OneTicker : (es : List Event) (t : Tunnel) → OneTicker t → OneTicker (run t es)
unfolding run
run_from-OneTicker [] t h = h
run_from-OneTicker (e ∷ es) t h = run_from-OneTicker es (step t e) (step-OneTicker e t h)

-- Whatever happens to a client with a direct path, exactly one of the two tickers of its prober is
-- read while the prober runs.
pub run-OneTicker :
    (timeout retry_period : ℤ) (es : List Event)
    → (run (new_client true timeout retry_period) es).prober.running ≡ true
    → let p = (run (new_client true timeout retry_period) es).prober in
      p.unverified_c ≡ not p.verified_c
unfolding new_client
run-OneTicker timeout retry_period es h =
    run_from-OneTicker es (new_client true timeout retry_period) (ground arith) h

sync_state_verified : (now : ℕ) (t : Tunnel) → is_verified now t ≡ true → sync_state now t ≡ t
unfolding sync_state
sync_state_verified now t trusted = ground arith

probe_round_trip-answered :
    (was : Bool) (a : ProbeAnswers) (c : ℕ) (t : Tunnel)
    → a.echo ≡ echoed
    → a.dies ≡ false
    → probe_round_trip was a c t ≡ probe_answered was a t
unfolding probe_round_trip probe_echo
probe_round_trip-answered was a c t e d =
    ap (λ u. probe_echo was a a.echo u) (if_no a.dies _ t d) ∙ ap (λ x. probe_echo was a x t) e

-- A turn that finds the path verified, opens its stream on the cached connection and gets an echo.
probe-answered :
    (a : ProbeAnswers) (t : Tunnel) (c : ℕ)
    → a.mesh_active ≡ true
    → a.now - t.client.last_active ≤ probe_idle_limit
    → is_verified a.now t ≡ true
    → open_direct a.opening t ≡ (t, stream c)
    → a.echo ≡ echoed
    → a.dies ≡ false
    → probe a t ≡ probe_answered true a t
unfolding probe probe_opened
probe-answered a t c mesh active trusted o e d =
    let (t', r) = open_direct a.opening (sync_state a.now t) in
    if_no (not a.mesh_active) t _ (ground arith)
    ∙ if_no (ltb probe_idle_limit (a.now - t.client.last_active)) (probe_idle a.now t) _
        (ground arith)
    ∙ ap (λ (p : Tunnel × Opened). probe_opened (is_verified a.now t) a p.1 p.0)
        (ap (open_direct a.opening) (sync_state_verified a.now t trusted) ∙ o)
    ∙ ap (λ was. probe_round_trip was a c t) trusted
    ∙ probe_round_trip-answered true a c t e d

probe_answered_degraded :
    (a : ProbeAnswers) (t : Tunnel) (later : ℕ)
    → 0 < t.direct.probe_rtt
    → second < a.done - a.now
    → 3 * t.direct.probe_rtt < a.done - a.now
    → let t' = probe_answered true a t in
      (is_verified later t' ≡ false)
      × (t'.prober.verified_c ≡ t.prober.verified_c)
      × (t'.prober.unverified_c ≡ t.prober.unverified_c)
unfolding probe_answered is_verified
probe_answered_degraded a t later base slow slower = ground arith

-- A probe on the slow cadence whose answer is too late ends the trust in the direct path, and the
-- prober stays on the slow cadence: the fast ticker is not read.
degraded_stays_slow :
    (a : ProbeAnswers) (t : Tunnel) (c later : ℕ)
    → t.prober.running ≡ true
    → t.prober.verified_c ≡ true
    → t.prober.unverified_c ≡ false
    → a.mesh_active ≡ true
    → a.now - t.client.last_active ≤ probe_idle_limit
    → is_verified a.now t ≡ true
    → open_direct a.opening t ≡ (t, stream c)
    → a.echo ≡ echoed
    → a.dies ≡ false
    → 0 < t.direct.probe_rtt
    → second < a.done - a.now
    → 3 * t.direct.probe_rtt < a.done - a.now
    → let t' = prober_turn verified a t in
      (is_verified later t' ≡ false)
      × (t'.prober.verified_c ≡ true)
      × (t'.prober.unverified_c ≡ false)
unfolding prober_turn receive
degraded_stays_slow a t c later r v u mesh active trusted o e d base slow slower =
    let same = probe-answered a t c mesh active trusted o e d in
    let (untrusted, slow_c, fast_c) = probe_answered_degraded a t later base slow slower in
    subst
      (λ t'.
        (is_verified later t' ≡ false)
        × (t'.prober.verified_c ≡ true)
        × (t'.prober.unverified_c ≡ false))
      (sym (if_yes (t.prober.running && t.prober.verified_c) _ t (ground arith) ∙ same))
      (untrusted, slow_c ∙ v, fast_c ∙ u)

-- The second failure in a row on a living connection drops it but leaves the streak at the limit
-- and the cadence as it was: then one failure on a later connection that lives drops that at once.
streak_not_reset :
    (now next : ℕ) (t u : Tunnel)
    → conn_alive t ≡ true
    → t.prober.fail_streak ≡ 1
    → u.prober ≡ (probe_failed now t).prober
    → conn_alive u ≡ true
    → let t' = probe_failed now t in
      (t'.prober.unverified_c ≡ t.prober.unverified_c)
      × (t'.prober.verified_c ≡ t.prober.verified_c)
      × ((probe_failed next u).direct.qconn ≡ none)
      × ((probe_failed next u).direct.verified_until ≡ 0)
unfolding probe_failed
streak_not_reset now next t u alive s same alive' = ground arith
