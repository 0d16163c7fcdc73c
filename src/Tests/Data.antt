-- ===== src/Tests/Data.antt =====
-- Clients and answers of the network that the tests share.
use yggss.Base.{ℕ, true, false, pos, ◌+◌, ◌*◌}
use yggss.Tunnel.State.{Tunnel, second}
use yggss.Tunnel.Direct.{open_direct, is_verified, Answers, connected, refused}
use yggss.Tunnel.Client.{MeshAnswers, new_client, run_client}
use yggss.Tunnel.Prober.{
  probe_opened, sync_state, ProbeAnswers, timer, echoed, read_failed, prober_turn,
}

abbrev pub answers : ℕ → Answers
answers now = record {
  now = now;
  open_ok = true;
  dies = false;
  dial = connected;
  later = now;
  first_ok = true;
}

-- The dial is refused.
abbrev pub blocked : ℕ → Answers
blocked now = record (answers now) { dial = refused }

abbrev pub mesh_up : MeshAnswers
mesh_up = record {
  active = true;
  open_ok = true;
  active_at_dial = true;
  dial_ok = true;
  first_ok = true;
}

abbrev pub mesh_down : MeshAnswers
mesh_down = record mesh_up { active = false; active_at_dial = false }

abbrev pub good_probe : ℕ → ProbeAnswers
good_probe now = record {
  mesh_active = true;
  now = now;
  opening = answers now;
  echo = echoed;
  dies = false;
  done = now + 5;
}

abbrev pub lost_probe : ℕ → ProbeAnswers
lost_probe now = record (good_probe now) { echo = read_failed }

-- A client with a direct path, built at the time 100, with a retry period of ten seconds.
unfoldable pub fresh : Tunnel
unfolding new_client run_client
fresh = run_client 100 true (new_client true (pos (30 * second)) (pos (10 * second)))

-- The same after its first probe: the connection 0 is cached and the direct path is verified.
unfoldable pub upgraded : Tunnel
unfolding fresh prober_turn probe_opened sync_state open_direct is_verified
upgraded = prober_turn timer (good_probe 2000) fresh
