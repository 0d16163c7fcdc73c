-- ===== src/Status/Report.antt =====
-- `report` of internal/yggss/stats.go: the lines that one tick of the status log writes. A line is
-- the constructor of its format with the arguments of `Infof` or `Warnf`.
use yggss.Base.{
  ℕ, ◌+◌, ◌/◌, ◌*◌, ◌%◌, ◌^◌, Bool, false, not, Option, none, some, List, [], ◌∷◌, ◌++◌, length,
  take, Text, codes, text_eq, ◌==◌, ltb, if◌then◌else◌,
}
use yggss.Node.{
  Peer, TreeEntry, PathEntry, public_key_size, is_peer_of, find_peer, tree_parent, path_coords,
}
use yggss.Stream.Pipe.{TunnelCounters}
use yggss.Stream.Totals.{reported}
use yggss.Tunnel.State.{PathState, mesh_only, h2h3, mesh_probing, mesh_fallback}
use yggss.Status.Size.{Size, format_bytes}
use yggss.Status.Transit.{Session, Logger, Warning, report_transit}

-- `peerLatency`: nothing measured yet, or whole milliseconds (`Truncate`).
unfoldable pub peer_latency : ℕ → Option ℕ
peer_latency d = if ltb 0 d then some (d / 1000000 * 1000000) else none

-- The bytes that `shortKey` prints in hex.
unfoldable pub short_key : Text → Text
short_key k = take 8 k

-- `String` of `directPathState` (internal/yggss/direct.go).
unfoldable pub path_text : PathState → Text
path_text h2h3 = codes "h2+h3 (direct verified)"
path_text mesh_probing = codes "h2 (probing h3)"
path_text mesh_fallback = codes "h2 (h3 failed, probing)"
path_text mesh_only = codes "h2"

-- The test for "h2+h3", on the printed state.
unfoldable pub active_direct : Text → Bool
active_direct state = text_eq (take 5 state) (codes "h2+h3")

pub data Line : Type 0 where
  no_peers : Line
  peers_up : ℕ → Line
  peer : (uri : Text) (latency : Option ℕ) (cost : ℕ) (rx tx : Size) (key : Option Text) → Line
  transit : Warning → Line
  tunnel_traffic : (rx tx : Size) → Line
  tunnel_path : (state : Text) (direct : Bool) → Line
  direct_link : (uri : Text) (latency : Option ℕ) → Line
  parent_unknown : Line
  via_mesh : (first_hop : Option Text) (latency : Option ℕ) (hops : Option ℕ) → Line

-- What the node and the tunnel answer during a report. `Peers` is asked again for each part.
pub record Answers : Type 0 where
  pub peers : List Peer
  pub peers_of_check : List Peer
  pub peers_of_route : List Peer
  pub sessions : List Session
  pub self : Text
  pub tree : List TreeEntry
  pub paths : List PathEntry

-- The fields of `statusLogger` that stay.
pub record Setup : Type 0 where
  pub server_key : Text
  pub tun_rx : Option TunnelCounters
  pub tun_tx : Option TunnelCounters
  pub state : Option PathState

unfoldable pub peer_line : Peer → Line
unfolding peer_latency short_key
peer_line p =
    peer p.uri (peer_latency p.latency) p.cost (format_bytes p.rx_bytes) (format_bytes p.tx_bytes)
      (if length p.key == public_key_size then some (short_key p.key) else none)

-- The loop over `Peers`: the lines of the peerings that are up, and the sum of their counters.
unfoldable pub up_lines : ℕ → List Peer → ℕ × List Line
unfolding peer_line
up_lines link_bytes [] = (link_bytes, [])
up_lines link_bytes (p ∷ ps) =
    let skipped = up_lines link_bytes ps in
    let counted = up_lines ((link_bytes + (p.rx_bytes + p.tx_bytes)) % 2 ^ 64) ps in
    if not p.up then skipped else (counted.0, peer_line p ∷ counted.1)

unfoldable pub link_line : Option Peer → Line
unfolding peer_latency
link_line none = direct_link [] none
link_line (some p) = direct_link p.uri (peer_latency p.latency)

unfoldable pub mesh_line : Option Peer → Option (List ℕ) → Line
unfolding peer_latency
mesh_line parent coords =
    via_mesh (elim parent [ none ↦ none | some p ↦ some p.uri ])
      (elim parent [ none ↦ none | some p ↦ peer_latency p.latency ])
      (elim coords [ none ↦ none | some cs ↦ some (length cs + 1) ])

unfoldable pub route_line : Text → Answers → Line
unfolding link_line mesh_line
route_line server_key a =
    if is_peer_of server_key a.peers_of_check
    then link_line (find_peer server_key a.peers_of_route)
    else elim (tree_parent a.self a.tree) [
      | none ↦ parent_unknown
      | some parent ↦ mesh_line (find_peer parent a.peers_of_route) (path_coords server_key a.paths)
    ]

unfoldable pub traffic_line : Setup → List Line
traffic_line s = elim (reported s.tun_rx s.tun_tx) [
  | none ↦ []
  | some n ↦ tunnel_traffic (format_bytes n.0) (format_bytes n.1) ∷ []
]

unfoldable pub path_line : Option PathState → List Line
unfolding path_text active_direct
path_line none = []
path_line (some s) = tunnel_path (path_text s) (active_direct (path_text s)) ∷ []

abbrev pub transit_line : Option Warning → List Line
transit_line none = []
transit_line (some w) = transit w ∷ []

-- The part of `report` after the transit estimate.
unfoldable pub route_report : Setup → Answers → List Line
unfolding traffic_line path_line route_line
route_report s a =
    if length s.server_key == public_key_size
    then traffic_line s ++ path_line s.state ++ (route_line s.server_key a ∷ [])
    else []

unfoldable pub report : Setup → Answers → Logger → Logger × List Line
unfolding up_lines route_report
report s a l =
    let up = up_lines 0 a.peers in
    let transit = report_transit up.0 a.sessions l in
    elim up.1 [
      | [] ↦ (record l { started = false }, no_peers ∷ [])
      | x ∷ xs ↦
          (transit.0, (peers_up (length up.1) ∷ up.1) ++ transit_line transit.1 ++ route_report s a)
    ]
