-- ===== src/Tunnel/Prober.antt =====
-- The goroutine of `startProber` (internal/yggss/direct.go, from line 653): one turn of its loop is
-- one function of the state, from the channel that `select` received from.
use yggss.Base.{ℕ, ◌+◌, ◌-◌, ◌*◌, Bool, true, false, not, ◌&&◌, ltb, leb, if◌then◌else◌}
use yggss.Tunnel.State.{
  PathState, h2h3, mesh_probing, Prober, Tunnel, close_conn, cooldown, Opened, stream, fail, second,
}
use yggss.Tunnel.Direct.{
  is_verified, mark_verified, mark_failed, verify_ttl, set_probe_state, conn_alive, drop_and_fail,
  probe_healthy, Answers, open_direct,
}
use yggss.Tunnel.Client.{path_state}

abbrev pub probe_idle_limit : ℕ
probe_idle_limit = 600 * second

abbrev pub probe_fail_streak_limit : ℕ
probe_fail_streak_limit = 2

-- The cases of `select`, but for `stop`.
pub data Wake : Type 0 where
  timer unverified verified : Wake

-- How the round trip on the probe's stream ends.
pub data Echo : Type 0 where
  write_failed read_failed mismatch echoed : Echo

-- What the clock and the network answer during one turn.
pub record ProbeAnswers : Type 0 where
  -- `client.meshActive()`.
  pub mesh_active : Bool
  -- `start`, and the clock at the tests before it.
  pub now : ℕ
  pub opening : Answers
  pub echo : Echo
  -- The connection of the stream is closed from outside during the round trip.
  pub dies : Bool
  -- The clock after the round trip.
  pub done : ℕ

-- `unverifiedC = unverifiedTicker.C; verifiedC = nil`.
unfoldable pub fast_cadence : Tunnel → Tunnel
fast_cadence t = record t { prober = record (t.prober) { unverified_c = true; verified_c = false } }

-- `unverifiedC = nil; verifiedC = verifiedTicker.C`, with the startup timer stopped.
unfoldable pub slow_cadence : Tunnel → Tunnel
slow_cadence t = record t {
  prober = record (t.prober) { timer_c = false; unverified_c = false; verified_c = true };
}

unfoldable pub set_streak : ℕ → Tunnel → Tunnel
set_streak k t = record t { prober = record (t.prober) { fail_streak = k } }

-- The two failing branches of a probe, which do the same: a living connection counts towards the
-- limit, a connection that is gone is dropped at once.
unfoldable pub probe_failed : ℕ → Tunnel → Tunnel
unfolding conn_alive set_streak drop_and_fail fast_cadence
probe_failed now t =
    let k = t.prober.fail_streak + 1 in
    let counted = set_streak k t in
    if conn_alive t
    then if leb probe_fail_streak_limit k then drop_and_fail now counted else counted
    else fast_cadence (set_streak 0 (drop_and_fail now t))

-- The round trip succeeded.
unfoldable pub probe_answered : Bool → ProbeAnswers → Tunnel → Tunnel
unfolding set_streak probe_healthy drop_and_fail mark_verified set_probe_state slow_cadence
    verify_ttl
probe_answered was_verified a t =
    let (t', healthy) = probe_healthy (a.done - a.now) (set_streak 0 t) in
    if healthy
    then slow_cadence (set_probe_state h2h3 (mark_verified a.done (verify_ttl t'.direct) t'))
    else if was_verified
    then drop_and_fail a.done t'
    else t'

unfoldable pub probe_echo : Bool → ProbeAnswers → Echo → Tunnel → Tunnel
unfolding probe_answered probe_failed
probe_echo was_verified a echoed t = probe_answered was_verified a t
probe_echo was_verified a _ t = probe_failed a.done t

unfoldable pub probe_round_trip : Bool → ProbeAnswers → ℕ → Tunnel → Tunnel
unfolding probe_echo
probe_round_trip was_verified a c t =
    probe_echo was_verified a a.echo (if a.dies then record t { net = close_conn c t.net } else t)

unfoldable pub probe_opened : Bool → ProbeAnswers → Opened → Tunnel → Tunnel
unfolding probe_round_trip probe_failed
probe_opened was_verified a (stream c) t = probe_round_trip was_verified a c t
probe_opened was_verified a (fail cooldown) t = t
probe_opened was_verified a (fail _) t = probe_failed a.done t

abbrev pub is_h2h3 : PathState → Bool
is_h2h3 h2h3 = true
is_h2h3 _ = false

-- The display state is brought in line with a cache that expired.
unfoldable pub sync_state : ℕ → Tunnel → Tunnel
unfolding is_verified path_state set_probe_state
sync_state now t =
    if not (is_verified now t) && is_h2h3 (path_state now t)
    then set_probe_state mesh_probing t
    else t

-- A long idle: the cache is dropped.
unfoldable pub probe_idle : ℕ → Tunnel → Tunnel
unfolding is_verified mark_failed set_probe_state fast_cadence
probe_idle now t =
    if is_verified now t then fast_cadence (set_probe_state mesh_probing (mark_failed t)) else t

unfoldable pub probe : ProbeAnswers → Tunnel → Tunnel
unfolding probe_idle
probe a t =
    let (t', r) = open_direct a.opening (sync_state a.now t) in
    if not a.mesh_active
    then t
    else if ltb probe_idle_limit (a.now - t.client.last_active)
    then probe_idle a.now t
    else probe_opened (is_verified a.now t) a r t'

-- Whether the channel of a case is not nil.
abbrev pub is_enabled : Wake → Prober → Bool
is_enabled timer p = p.timer_c
is_enabled unverified p = p.unverified_c
is_enabled verified p = p.verified_c

-- The startup timer fires once.
unfoldable pub receive : Wake → Tunnel → Tunnel
receive timer t = record t { prober = record (t.prober) { timer_c = false } }
receive _ t = t

-- One turn of the loop; a receive from a nil channel never happens.
unfoldable pub prober_turn : Wake → ProbeAnswers → Tunnel → Tunnel
unfolding probe receive
prober_turn w a t = if t.prober.running && is_enabled w t.prober then probe a (receive w t) else t
