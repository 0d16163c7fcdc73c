-- ===== src/Lib.antt =====
-- yggss: a SIP003 plugin that tunnels shadowsocks traffic over the Yggdrasil network.
--
-- The client side listens for ss-local and gives every connection one QUIC stream to the server.
-- It has two channels: QUIC over the mesh session of the local Yggdrasil node, and QUIC over plain
-- UDP to the server's endpoint (direct mode). A prober in the background decides when the direct
-- channel is trusted. A failover monitor takes the direct link of the node out of use and back.
--
-- Base         shared names, tests, lists, texts, families indexed by numbers, and the signed numbers
--              of flags and settings.
-- Node         the queries of internal/yggss/node.go over the answers of the yggdrasil core, and its
--              `AddPeer`, `RemovePeer` and `Listen` over the operations of the core.
-- Tunnel       internal/yggss/direct.go and the client of internal/yggss/tunnel.go.
--   State      `client`, `directClient`, the prober's variables, and the connections they share.
--   Direct     the methods of `directClient`, `openStream` being `open_direct`.
--   Client     `openStream` (`open_stream`, its mesh part `open_mesh`), `handle`, `watchMeshConn`,
--              `PathState`, `NewClient`, `Run`.
--   Prober     the goroutine of `startProber`: `prober_turn` is one turn of its loop.
--   Events     a client's life as a list of events.
--   Upgrade    the probe's round trip with the server that answers it.
--   Ownership, Selection, Cutover, Trust, Cadence, MeshMode: proofs.
--   Goroutine  the goroutines of the client as their critical sections: `handle_goroutine`,
--              `watch_goroutine`, `close_goroutine`, and in Goroutine/Turn a turn of the prober.
--              Goroutine/System: all of them, one section of one of them being a `Step`.
--              Goroutine/Alone, AloneTurn: not interrupted. Rules, Served, Traced, Leaks,
--              Doubt, Atomic, Simulation: proofs; the last two compare it with Events.
-- Stream       the bytes of one stream: `handleProbeStream`, `handleStream`, `streamWithPrefix`,
--              `pipe` and the traffic counters of internal/yggss/tunnel.go.
-- Server       the server of internal/yggss/tunnel.go and the direct listener of
--              internal/yggss/direct.go.
--   Handler    one stream: the phases of `handleStream`, which the goroutine in `serveDirectConn`
--              goes through as well.
--   System     the server with its connections and handlers; a `Step` is what any goroutine or the
--              network does next.
--   Queues     the abstract server: a queue of bytes for each stream. Refinement: its steps follow.
--   Forwarding, Admission, Safety, Probes, Delivery, EndToEnd: proofs.
-- Failover     internal/yggss/failover.go: `tick` is one turn of the loop of `Run`.
--   Probe      the address that `probeDirect` connects to.
--   OnNode     the loop with the node that it calls.
--   Hysteresis, Exact: proofs.
-- Status       internal/yggss/stats.go: the periodic status log.
--   Size       `formatBytes`. Transit: `reportTransit`. Report: `report`, its lines as data, and
--              `String` of the channel state. Log: the loop over the ticks. Route, PathLines, LogPath:
--              proofs.
-- Settings     how a run of cmd/yggss/main.go comes to its settings and what it starts.
--   Strings    the functions of Go's package strings that are used.
--   Options    internal/yggss/sip003.go, and `findConfigPath` of internal/yggss/config.go.
--   Config     the configuration file and its place in `main`. Environment: the SIP003 options.
--   Keys       hex keys, and `NewNode` of internal/yggss/node.go. KeyPrint: `genAndPrintKey`.
--   Start      `main` as a whole: `settle` up to the startup summary, `start` from there on.
--   Address    `parseHostPort` of internal/yggss/direct.go, and its round trip.
--   Endpoint   `resolveUDP`, and the addresses of `directDialTransport` and `startDirectListener`.
--   Launch     the client and the failover monitor that `main` builds. Peerings: the peerings that
--              it makes, while that monitor runs.
--   PeerCheck  the search for the server's key among the peers.
--   CommandLine  the flags, their defaults and the early exits.
--   Sources, Precedence, Whitelist, RoundTrip, NodeKey: proofs.
-- Identity     the certificate checks of internal/yggss/tunnel.go and internal/yggss/direct.go.
--   Pinning    what the keys of a configuration mean for these checks.
-- Tests        runs on concrete inputs.
--
-- State. `client` and `directClient` point at one another (`owner`, `direct`); they are two parts of
-- one record `Tunnel`, so that a method of one that changes the other is a function on the record.
-- A QUIC connection is a number, given by the dial that made it; `Net` says which connections are
-- alive, which QUIC transports are not closed, how many UDP sockets have been opened, and which
-- goroutines wait for a connection to close. `Transport.Close` leaves the UDP socket open that it was
-- given, and the code does not close it either. What the clock and the network answer during a call
-- is an argument of the call. Log lines are left out, except for the status log.
--
-- Concurrency. The client has two models. In Tunnel/Events one event is one operation with all the
-- critical sections that it enters: a call of `openStream`, a turn of the prober, a watcher that
-- wakes, `Close`, and, between them, the network that closes a connection at any time. In
-- Tunnel/Goroutine any number of goroutines interleave, section by section; what runs under one
-- mutex is one step, also where it waits for a dial: what others do meanwhile is not what the mutex
-- guards. The network closes connections between any two steps. Turns of the prober start
-- at any time there and may overlap, also after `Close`, which the code does less freely. In the
-- server all goroutines interleave, the two copies of each `pipe` read by read; a read of at most
-- `pipe_buf_size` bytes of the stream and the write after it, which may fail with a part written, are
-- one step. What the shadowsocks server answers comes in chunks of any size. Once one copy of a `pipe`
-- has ended, the TCP end is closed in both directions and the QUIC stream in the direction that sends.
--
-- Numbers. Times are nanoseconds without a bound. The durations that `main` and `newFailoverMonitor`
-- compute from flags and from the JSON file wrap as int64 products do, and may be negative; sums and
-- multiples of durations in internal/yggss/direct.go are exact. A ticker with a period that is not
-- positive, with which `NewTicker` panics, is not modelled.
-- The moving average of `probeHealthy` is exact instead of in float64. Traffic counters wrap at
-- 2^64; the estimate of transit is made with uint64 and int64 as in Go, an int64 being kept as its
-- 64 bits. Texts are lists of bytes, and ASCII where case or blanks matter.
--
-- Fuel. `scale`, the loop of `formatBytes`, has fuel for six turns; each divides by 1024, so that a
-- uint64 needs at most five. All other loops are structural.
--
-- Not modelled: quic-go, the yggdrasil core, TLS beyond the check of the peer's key, sockets, the
-- Accept calls of the listeners, JSON and flag parsing, the resolver, logging; also the packet
-- connection of internal/yggss/node.go, which hands its arguments to the core, and the signals that
-- end a run. When a ticker ticks is not modelled; what is done at its ticks is.
pub mod Base
pub mod Node
pub mod Identity
pub mod Server
pub mod Tunnel
pub mod Failover
pub mod Settings
pub mod Status
pub mod Stream
pub mod Tests
