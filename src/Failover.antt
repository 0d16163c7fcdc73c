-- ===== src/Failover.antt =====
-- The monitor that takes the direct link out of use and back (internal/yggss/failover.go).
pub mod Hysteresis
pub mod Exact
pub mod Probe
pub mod OnNode
use yggss.Base.{
  ℕ, ◌+◌, ◌*◌, Bool, true, false, not, ◌&&◌, Option, none, some, List, [], ◌∷◌, ℤ, pos, negsuc,
  int64, positive_or, Text, leb, ltb, ◌==◌, if◌then◌else◌, length,
}
use yggss.Node.{Peer, find_peer, public_key_size}

pub data State : Type 0 where
  direct mesh : State

abbrev pub failover_degrade_limit : ℕ
failover_degrade_limit = 3

abbrev pub failover_recover_limit : ℕ
failover_recover_limit = 2

abbrev pub default_failover_latency_ms : ℕ
default_failover_latency_ms = 1000

abbrev pub default_failover_check_sec : ℕ
default_failover_check_sec = 5

-- `failoverMonitor`, with durations in nanoseconds, which are int64.
pub record Settings : Type 0 where
  pub direct_uri : Text
  pub direct_host : Text
  pub server_key : Text
  pub max_latency : ℤ
  pub check_every : ℤ

-- `newFailoverMonitor`; `parsed` is the host that `url.Parse` finds in the URI, or its error.
unfoldable pub new_failover_monitor : Option Text → Text → Text → ℤ → ℤ → Option Settings
new_failover_monitor parsed [] server_key latency_ms check_sec = none
new_failover_monitor none uri server_key latency_ms check_sec = none
new_failover_monitor (some []) uri server_key latency_ms check_sec = none
new_failover_monitor (some host) uri server_key latency_ms check_sec =
    if length server_key == public_key_size
    then some (record {
      direct_uri = uri;
      direct_host = host;
      server_key = server_key;
      max_latency = int64 (pos (positive_or latency_ms default_failover_latency_ms * 1000000));
      check_every = int64 (pos (positive_or check_sec default_failover_check_sec * 1000000000));
    })
    else none

-- The variables of `Run`, and whether the direct URI is among the peerings of the node.
pub record Monitor : Type 0 where
  pub state : State
  pub bad : ℕ
  pub good : ℕ
  pub peered : Bool

-- What one tick sees: the peerings, whether a TCP connect to the direct endpoint succeeds, and
-- whether the call of `RemovePeer` or `AddPeer` does.
pub record Tick : Type 0 where
  pub peers : List Peer
  pub reachable : Bool
  pub call_ok : Bool

-- `up && lat <= m.maxLatency`, where a latency is not negative, for the answer of `directLinkLatency`.
unfoldable pub is_good_latency : ℤ → Option Peer → Bool
is_good_latency limit none = false
is_good_latency (pos limit) (some p) = leb p.latency limit
is_good_latency (negsuc limit) (some p) = false

unfoldable pub link_is_good : Settings → Tick → Bool
link_is_good m k = is_good_latency m.max_latency (find_peer m.server_key k.peers)

-- The case `failoverStateDirect`.
unfoldable pub tick_direct : Settings → Tick → Monitor → Monitor
tick_direct m k s =
    let bad = s.bad + 1 in
    if link_is_good m k
    then record s { bad = 0 }
    else if leb failover_degrade_limit bad && k.call_ok
    then record s { state = mesh; bad = bad; good = 0; peered = false }
    else record s { bad = bad }

-- The case `failoverStateMesh`.
unfoldable pub tick_mesh : Tick → Monitor → Monitor
tick_mesh k s =
    let good = if k.reachable then s.good + 1 else 0 in
    if leb failover_recover_limit good && k.call_ok
    then record s { state = direct; good = good; bad = 0; peered = true }
    else record s { good = good }

abbrev dispatch : State → Settings → Tick → Monitor → Monitor
dispatch direct m k s = tick_direct m k s
dispatch mesh m k s = tick_mesh k s

-- One turn of the loop of `Run`.
unfoldable pub tick : Settings → Tick → Monitor → Monitor
unfolding tick_direct tick_mesh
tick m k s = dispatch s.state m k s

abbrev pub start : Monitor
start = record { state = direct; bad = 0; good = 0; peered = true }

-- `Run` over the ticks seen so far, the last one first.
unfoldable pub run : Settings → List Tick → Monitor
run m [] = start
run m (k ∷ earlier) = tick m k (run m earlier)
