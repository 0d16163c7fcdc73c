-- ===== src/Tests/Failovers.antt =====
-- The failover monitor (internal/yggss/failover.go).
use yggss.Base.{◌↔◌, false, ℕ, ◌≡◌, refl, true, false, List, [], ◌∷◌, codes, text_eq, pos}
use yggss.Node.{Peer, find_peer}
use yggss.Failover.{is_good_latency, direct, mesh, Settings, Tick, link_is_good, tick, run}
use yggss.Failover.Exact.{HeldBad, HeldGood, leaves_iff, returns_iff}
use yggss.Failover.Probe.{probe_address}
use yggss.Settings.Strings.{contains, cut}
use yggss.Settings.Options.{join_host_port}
use yggss.Settings.Address.{split_host_port}

abbrev pub settings : Settings
settings = record {
  direct_uri = codes "tls://h:1";
  direct_host = codes "h:1";
  server_key = codes "K";
  max_latency = pos 1000;
  check_every = pos 5;
}

abbrev server_at : ℕ → Peer
server_at latency = record {
  up = true;
  key = codes "K";
  uri = codes "tls://h:1";
  latency = latency;
  cost = 1;
  rx_bytes = 0;
  tx_bytes = 0;
}

abbrev slow : Tick
slow = record { peers = server_at 1001 ∷ []; reachable = false; call_ok = true }

-- The link is gone.
abbrev down : Tick
down = record { peers = []; reachable = false; call_ok = true }

abbrev back : Tick
back = record { peers = []; reachable = true; call_ok = true }

abbrev outage : List Tick
outage = down ∷ slow ∷ slow ∷ []

leaves_iff_example :
    ((run settings outage).state ≡ mesh) ↔ (HeldBad settings 3 outage × (down.call_ok ≡ true))
unfolding run tick link_is_good is_good_latency find_peer text_eq
leaves_iff_example = leaves_iff settings down (slow ∷ slow ∷ []) refl

returns_iff_example :
    ((run settings (back ∷ back ∷ outage)).state ≡ direct)
    ↔ (HeldGood settings 2 (back ∷ back ∷ outage) × (back.call_ok ≡ true))
unfolding run tick link_is_good is_good_latency find_peer text_eq
returns_iff_example = returns_iff settings back (back ∷ outage) refl

unwrapped : probe_address (codes "[h]:1") ≡ codes "h:1"
unfolding probe_address split_host_port contains cut join_host_port
unwrapped = refl
