-- ===== src/Tests/Probes.antt =====
-- The prober of the direct path (internal/yggss/direct.go).
use yggss.Base.{◌<◌, text_eq, ◌+◌, ◌*◌, ◌≡◌, refl, true, false, List, [], ◌∷◌, arith, pos, not}
use yggss.Tunnel.State.{Tunnel, Prober, second, stream}
use yggss.Tunnel.Direct.{is_verified, open_direct, verify_ttl}
use yggss.Tunnel.Prober.{
  is_enabled, receive, sync_state, ProbeAnswers, Wake, timer, verified, echoed, probe_failed,
  prober_turn, probe_opened,
}
use yggss.Tunnel.Events.{Event, called, turn, closed, step, run}
use yggss.Tunnel.Cadence.{run-OneTicker}
use yggss.Tunnel.Client.{new_client, run_client}
use yggss.Tunnel.Upgrade.{read_echo, reply, prober_turn-verifies}
use yggss.Stream.Peek.{probe_ping, handle_stream}
use yggss.Tunnel.Trust.{step-earns}
use yggss.Tests.Data.{good_probe, lost_probe, fresh, upgraded}

step-earns_example :
    (w : Wake) × (a : ProbeAnswers) × (turn timer (good_probe 2000) ≡ turn w a)
    × (a.mesh_active ≡ true)
    × (a.echo ≡ echoed)
unfolding upgraded step
step-earns_example = step-earns fresh (turn timer (good_probe 2000)) (omega arith)

abbrev probes : List Event
probes =
    called 100 true
    ∷ turn timer (good_probe 2000)
    ∷ turn verified (lost_probe 3000)
    ∷ closed 0
    ∷ turn verified (lost_probe 4000)
    ∷ []

abbrev prober_after : Prober
prober_after = (run (new_client true (pos 30) (pos 10)) probes).prober

still_runs : prober_after.running ≡ true
unfolding new_client run step prober_turn run_client probe_opened open_direct sync_state
still_runs = refl

run-OneTicker_example : prober_after.unverified_c ≡ not prober_after.verified_c
run-OneTicker_example = run-OneTicker (pos 30) (pos 10) probes still_runs

-- A round trip of two seconds, where the average is 5 ns.
abbrev late_probe : ProbeAnswers
late_probe = record (good_probe 3000) { done = 3000 + 2 * second }

-- One failure, a second that drops the connection, and a failure on the next connection.
abbrev strained : Tunnel
unfolding upgraded
strained = record upgraded { prober = record (upgraded.prober) { fail_streak = 1 } }

abbrev redialled : Tunnel
unfolding upgraded probe_failed
redialled = record upgraded { prober = (probe_failed 3000 strained).prober }

stream_opens :
    (open_direct (good_probe 2000).opening (sync_state 2000 (receive timer fresh))).1 ≡ stream 0
unfolding fresh receive sync_state open_direct
stream_opens = refl

echo_read : (good_probe 2000).echo ≡ read_echo true (reply [] (handle_stream false probe_ping []))
unfolding read_echo reply handle_stream text_eq
echo_read = refl

timer_runs : is_enabled timer fresh.prober ≡ true
unfolding fresh
timer_runs = refl

prober_runs : fresh.prober.running ≡ true
unfolding fresh
prober_runs = refl

lasts : 9000 < (good_probe 2000).done + verify_ttl fresh.direct
unfolding fresh verify_ttl
lasts = omega arith

prober_turn-verifies_example : is_verified 9000 (prober_turn timer (good_probe 2000) fresh) ≡ true
unfolding fresh
prober_turn-verifies_example =
    prober_turn-verifies timer (good_probe 2000) 0 9000 false [] fresh prober_runs timer_runs refl
      (omega arith) stream_opens echo_read (omega arith) lasts
