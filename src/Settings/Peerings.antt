-- ===== src/Settings/Peerings.antt =====
-- The peerings that a client start makes (cmd/yggss/main.go), and what becomes of them while its
-- failover monitor runs (internal/yggss/failover.go).
use yggss.Base.{
  ◌≡◌, inl, inr, refl, sym, ap, subst, ◌∙◌, Bool, true, false, Option-cases, Option, none, some,
  List, [], ◌∷◌, Text, length, ◌==◌, arith, ℤ, if◌then◌else◌,
}
use yggss.Node.{public_key_size, Core, add_peer, with_url}
use yggss.Failover.{Settings, new_failover_monitor}
use yggss.Failover.OnNode.{Look, run_on, Call, adds, recording, Toggled, run_on-Toggled}
use yggss.Settings.Config.{Vars}
use yggss.Settings.Start.{ClientRun, connect, start_client, peer_uri}
use yggss.Settings.Launch.{launch_monitor, connects}

-- The loop over the peer list; a peer that is refused is only logged.
unfoldable pub add_peers : {St Url : Type 0} → Core St Url → List Text → St → St
add_peers c [] st = st
add_peers c (p ∷ ps) st = add_peers c ps (add_peer c p st).0

-- The core of the node of a client, from the peer list to the server's peering.
unfoldable pub client_core : {St Url : Type 0} → Core St Url → List Text → ClientRun → St → St
unfolding add_peers
client_core c peers r st = (add_peer c r.uri (add_peers c peers st)).0

-- The last call asks the core to add the URL.
pub Added : {Url : Type 0} → Url → List (Call Url) → Type 0
Added {Url} u calls = (ok : Bool) × (earlier : List (Call Url)) × (calls ≡ adds u ok ∷ earlier)

add_peer-Added :
    {St Url : Type 0} (c : Core St Url) (uri : Text) (p : St × List (Call Url)) (u : Url)
    → c.parse uri ≡ some u
    → Added u (add_peer (recording c) uri p).0.1
unfolding add_peer recording Added
add_peer-Added c uri p u parsed =
    subst (λ x. Added u (with_url (recording c).add x p).0.1) (sym parsed)
      ((c.add u p.0).1, p.1, refl)

client_core-Added :
    {St Url : Type 0} (c : Core St Url) (peers : List Text) (r : ClientRun)
    (st : St × List (Call Url)) (u : Url)
    → c.parse r.uri ≡ some u
    → Added u (client_core (recording c) peers r st).1
unfolding client_core
client_core-Added c peers r st u parsed =
    add_peer-Added c r.uri (add_peers (recording c) peers st) u parsed

kept_uri :
    (b : Bool) (n m : Settings) (uri : Text)
    → (if b then some n else none) ≡ some m
    → n.direct_uri ≡ uri
    → m.direct_uri ≡ uri
kept_uri true n m uri e same = cc (e, same)
kept_uri false n m uri e same = absurd cc

new_failover_monitor-uri :
    (host : Option Text) (uri key : Text) (latency every : ℤ) (m : Settings)
    → new_failover_monitor host uri key latency every ≡ some m
    → m.direct_uri ≡ uri
unfolding new_failover_monitor
new_failover_monitor-uri host [] key latency every m e = absurd cc
new_failover_monitor-uri none (x ∷ uri) key latency every m e = absurd cc
new_failover_monitor-uri (some []) (x ∷ uri) key latency every m e = absurd cc
new_failover_monitor-uri (some (y ∷ host)) (x ∷ uri) key latency every m e =
    kept_uri (length key == public_key_size) _ m _ e refl

launch_monitor-uri :
    (host_of : Text → Option Text) (r : ClientRun) (m : Settings)
    → launch_monitor host_of r ≡ some m
    → m.direct_uri ≡ r.uri
unfolding launch_monitor
launch_monitor-uri host_of r m e = elim (Option-cases r.failover) [
  | inl off ↦ absurd (ground (arith, e, off))
  | inr ((latency, every), on) ↦
      new_failover_monitor-uri (host_of r.uri) r.uri r.server_key latency every m
        (ground (arith, e, on))
]

-- While the failover monitor of a started client runs, whose server has a URI that parses, it calls the
-- node for one peering alone, the one that the start asks the core to add last: it removes it while it
-- is on the direct side and adds it while it is on the mesh side, and it changes the side exactly with
-- a call that succeeds; after any ticks, whatever the core answers, and beginning on the direct side
-- with the calls that the start has made.
pub launched-peerings :
    {St Url : Type 0} (c : Core St Url) (escape : Text → Text) (host_of : Text → Option Text)
    (v : Vars) (peers : List Text) (r : ClientRun) (m : Settings) (st : St) (ls : List Look)
    (u : Url)
    → start_client escape v ≡ connect peers r
    → launch_monitor host_of r ≡ some m
    → c.parse (peer_uri escape v) ≡ some u
    → let begun = client_core (recording c) peers r (st, []) in
      let s = run_on (recording c) m begun ls in
      (Added u begun.1) × (Toggled u begun.1 s.core.1 s.state)
launched-peerings c escape host_of v peers r m st ls u started built server_url =
    let (dst, uri, key, direct, failover) = connects escape v peers r started in
    let run_url = ap c.parse uri ∙ server_url in
    let monitor_url = ap c.parse (launch_monitor-uri host_of r m built) ∙ run_url in
    let begun = client_core (recording c) peers r (st, []) in
    (
      client_core-Added c peers r (st, []) u run_url,
      run_on-Toggled c m u monitor_url begun.0 begun.1 ls,
    )
