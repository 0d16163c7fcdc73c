-- ===== src/Tests/Peerings.antt =====
-- The failover monitor on a node (internal/yggss/failover.go, internal/yggss/node.go) with a core that keeps
-- a function of its peerings: it refuses to add a peering that is there and to remove one that is not.
use yggss.Base.{
  Option, codes, Text, ℕ, ◌≡◌, refl, Bool, true, false, not, some, List, [], ◌∷◌, put, length, pos,
}
use yggss.Node.{Core, add_peer, remove_peer, find_peer}
use yggss.Failover.{is_good_latency, mesh, Settings, new_failover_monitor}
use yggss.Failover.OnNode.{Look, run_on, direct_on, mesh_on, recording, adds, removes, Toggled}
use yggss.Tests.Failovers.{settings}
use yggss.Tests.Identities.{calling, escape, call, called}
use yggss.Settings.Strings.{contains, contains_text}
use yggss.Settings.Start.{peer_uri, with_scheme}
use yggss.Settings.Launch.{launch_monitor}
use yggss.Settings.Peerings.{client_core, add_peers, Added, launched-peerings}

-- URLs are told apart by their length.
abbrev core : Core (ℕ → Bool) ℕ
core = record {
  parse = λ uri. some (length uri);
  add = λ u st. (put u true st, not (st u));
  remove = λ u st. (put u false st, st u);
  listens = λ u st. (st, true);
}

-- The direct link is down for three ticks, and then its endpoint is reached once.
abbrev bad_tick : Look
bad_tick = record { peers = []; reachable = false }

abbrev good_tick : Look
good_tick = record { peers = []; reachable = true }

abbrev looks : List Look
looks = good_tick ∷ bad_tick ∷ bad_tick ∷ bad_tick ∷ []

-- The core keeps the direct peering and a peering of the mesh.
abbrev kept : ℕ → Bool
kept = put 9 true (put 3 true (λ u. false))

given_up : (run_on core settings kept looks).state ≡ mesh
unfolding run_on direct_on mesh_on remove_peer add_peer find_peer is_good_latency
given_up = refl

-- The start of a client with the peer `tls://p:1`, whose server is the peering 15.
abbrev host_of : Text → Option Text
host_of uri = some (codes "h:1")

abbrev monitor : Settings
monitor = record {
  direct_uri = call.uri;
  direct_host = codes "h:1";
  server_key = call.server_key;
  max_latency = pos 1000000000;
  check_every = pos 5000000000;
}

abbrev no_peerings : ℕ → Bool
no_peerings u = false

built : launch_monitor host_of call ≡ some monitor
unfolding launch_monitor new_failover_monitor
built = refl

uri_parsed : core.parse (peer_uri escape calling) ≡ some 15
unfolding peer_uri with_scheme contains contains_text
uri_parsed = refl

launched-peerings_example :
    let begun = client_core (recording core) (codes "tls://p:1" ∷ []) call (no_peerings, []) in
    let s = run_on (recording core) monitor begun looks in
    (Added 15 begun.1) × (Toggled 15 begun.1 s.core.1 s.state)
launched-peerings_example =
    launched-peerings core escape host_of calling (codes "tls://p:1" ∷ []) call monitor no_peerings
      looks 15 called built uri_parsed

-- The monitor has given the direct peering up.
calls_made :
    (run_on
      (recording core)
      monitor
      (client_core (recording core) (codes "tls://p:1" ∷ []) call (no_peerings, []))
      looks).core.1
    ≡ removes 15 true ∷ adds 15 true ∷ adds 9 true ∷ []
unfolding run_on direct_on mesh_on remove_peer add_peer find_peer is_good_latency recording
    client_core add_peers
calls_made = refl
