-- ===== src/Tests/Launches.antt =====
-- What a run of the command comes to.
use yggss.Base.{◌++◌, ◌≡◌, refl, true, false, none, some, List, [], ◌∷◌, codes, text_eq, length}
use yggss.Node.{Peer, peer_keys}
use yggss.Settings.Strings.{is_empty, trim_space, trim_left, trim_right, split, contains_text}
use yggss.Settings.Config.{Vars, apply_config, trim_config}
use yggss.Settings.Keys.{
  Node, made, new_node, private_key, node_with, private_key_size, decode_hex, parse_key,
}
use yggss.Settings.Start.{settle, with_env, start, start_server, keep_parts, parse_keys, is_direct}
use yggss.Settings.NodeKey.{is_exit, start-key}
use yggss.Settings.Launch.{launch_tunnel, start_client-no_udp}
use yggss.Settings.PeerCheck.{Poll, identity_check}
use yggss.Settings.CommandLine.{
  IsTimed, default_flags, default_flags-IsTimed, settle-IsTimed, command, print_version,
}
use yggss.Tunnel.Events.{run}
use yggss.Tests.Data.{answers, mesh_up}
use yggss.Tests.Starts.{admitting, all_ok, repeat, environ, load, config}
use yggss.Tests.Identities.{calling, escape, call, called}
use yggss.Tunnel.Events as Events

abbrev keyed : Vars
keyed = record admitting { key_hex = codes " " ++ repeat 128 97 }

keyed_runs : is_exit (start escape all_ok keyed) ≡ false
unfolding start start_server new_node private_key node_with parse_keys keep_parts parse_key
    decode_hex split trim_space trim_left trim_right text_eq contains_text
keyed_runs = refl

keyed_given : is_empty (trim_space keyed.key_hex) ≡ false
unfolding trim_space trim_left trim_right
keyed_given = refl

start-key_example :
    (n : Node) × (new_node all_ok.node keyed.key_hex keyed.password ≡ made n)
    × (decode_hex (trim_space keyed.key_hex) ≡ some n.private_key)
    × (length n.private_key ≡ private_key_size)
    × (n.ephemeral ≡ false)
start-key_example = start-key escape all_ok keyed keyed_given keyed_runs

meshed : is_direct calling ≡ false
unfolding text_eq
meshed = refl

abbrev life : List Events.Event
life = Events.accepted 2000 (answers 2000) mesh_up ∷ Events.called 1000 true ∷ []

start_client-no_udp_example :
    ((run (launch_tunnel call) life).net.sockets ≡ 0)
    × ((run (launch_tunnel call) life).direct.qconn ≡ none)
    × ((run (launch_tunnel call) life).prober.running ≡ false)
start_client-no_udp_example =
    start_client-no_udp escape calling (codes "tls://p:1" ∷ []) call life called meshed

abbrev server_peer : Peer
server_peer = record {
  up = true;
  key = repeat 32 170;
  uri = codes "tls://h:1";
  latency = 7;
  cost = 1;
  rx_bytes = 0;
  tx_bytes = 0;
}

abbrev polls : List Poll
polls = record { time = 10; peers = [] } ∷ record { time = 20; peers = server_peer ∷ [] } ∷ []

too_late : identity_check 20 (repeat 32 170) polls ≡ some false
unfolding identity_check peer_keys
too_late = refl

abbrev by_default : Vars
by_default = with_env environ (apply_config [] (trim_config config) default_flags.vars)

settled : settle load [] (codes "x") environ default_flags.vars ≡ some by_default
unfolding settle
settled = refl

settle-IsTimed_example : IsTimed by_default
settle-IsTimed_example =
    settle-IsTimed load [] (codes "x") environ default_flags.vars by_default default_flags-IsTimed
      settled

asked_for_version :
    command load escape all_ok [] environ (record default_flags { show_version = true })
    ≡ print_version
unfolding command
asked_for_version = refl
