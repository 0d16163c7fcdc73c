-- ===== src/Settings/Launch.antt =====
-- What `main` (cmd/yggss/main.go) builds for a client that it starts: `NewClient`, and the failover
-- monitor.
use yggss.Base.{
  ◌+◌, ◌-◌, ◌*◌, ◌≡◌, true, false, Option, none, some, List, Text, ℤ, pos, negsuc, int64, arith,
  if◌then◌else◌, sym, ◌∙◌, subst, if_no, inl, inr, Option-cases,
}
use yggss.Node.{public_key_size}
use yggss.Failover.{Settings, new_failover_monitor}
use yggss.Settings.Strings.{is_empty}
use yggss.Settings.Config.{Vars}
use yggss.Settings.Keys.{parse_key}
use yggss.Settings.Start.{connect, ClientRun, start_client, failover_wanted, peer_uri, is_direct}
use yggss.Tunnel.State.{Tunnel, second}
use yggss.Tunnel.Client.{new_client}
use yggss.Tunnel.Events.{Event, run}
use yggss.Tunnel.MeshMode.{mesh_mode-no_udp}

-- `time.Duration(n) * time.Second`.
unfoldable pub seconds : ℤ → ℤ
seconds (pos n) = int64 (pos (n * second))
seconds (negsuc n) = int64 (negsuc ((n + 1) * second - 1))

-- The retry period is that of the direct client, if there is one.
unfoldable pub launch_tunnel : ClientRun → Tunnel
unfolding seconds
launch_tunnel c = elim c.direct [
  | none ↦ new_client false (seconds c.timeout) (pos 0)
  | some d ↦ new_client true (seconds c.timeout) (seconds d.1)
]

-- `host_of` is what `url.Parse` finds as the host of an URI, or its error.
unfoldable pub launch_monitor : (Text → Option Text) → ClientRun → Option Settings
launch_monitor host_of c = elim c.failover [
  | none ↦ none
  | some f ↦ new_failover_monitor (host_of c.uri) c.uri c.server_key f.0 f.1
]

-- What a started client is given.
pub connects :
    (escape : Text → Text) (v : Vars) (peers : List Text) (r : ClientRun)
    → start_client escape v ≡ connect peers r
    → (is_empty v.dst_addr ≡ false)
      × (r.uri ≡ peer_uri escape v)
      × (parse_key v.server_key_hex public_key_size ≡ some r.server_key)
      × (r.direct ≡ (if is_direct v then some (v.direct_dial_sec, v.direct_retry_sec) else none))
      × (r.failover ≡ (
          if failover_wanted v then some (v.failover_latency_ms, v.failover_check_sec) else none))
unfolding start_client
connects escape v peers r h = elim (Option-cases (parse_key v.server_key_hex public_key_size)) [
  | inl bad ↦ absurd (ground arith)
  | inr (key, good) ↦ (ground arith, ground arith, ground arith, ground arith, ground arith)
]

mesh_tunnel :
    (r : ClientRun)
    → r.direct ≡ none
    → launch_tunnel r ≡ new_client false (seconds r.timeout) (pos 0)
unfolding launch_tunnel
mesh_tunnel r e = ground arith

-- A client whose mode is not `direct` never opens a UDP socket or a direct connection and never runs
-- the prober, whatever happens to it after its start (`Run`, accepted connections with any answers
-- of the network and the mesh, wakes, ends of connections, `Close`).
pub start_client-no_udp :
    (escape : Text → Text) (v : Vars) (peers : List Text) (r : ClientRun) (es : List Event)
    → start_client escape v ≡ connect peers r
    → is_direct v ≡ false
    → ((run (launch_tunnel r) es).net.sockets ≡ 0)
      × ((run (launch_tunnel r) es).direct.qconn ≡ none)
      × ((run (launch_tunnel r) es).prober.running ≡ false)
start_client-no_udp escape v peers r es started mesh =
    let (dst, uri, key, direct, failover) = connects escape v peers r started in
    subst
      (λ t.
        ((run t es).net.sockets ≡ 0)
        × ((run t es).direct.qconn ≡ none)
        × ((run t es).prober.running ≡ false))
      (sym (mesh_tunnel r (direct ∙ if_no (is_direct v) _ _ mesh)))
      (mesh_mode-no_udp (seconds r.timeout) (pos 0) es)
