-- ===== src/Node.antt =====
-- What the node tells about its peerings (internal/yggss/node.go). The core of yggdrasil is not
-- modelled: its answers, such as `GetPeers`, are arguments.
use yggss.Base.{
  ℕ, zero, suc, Bool, true, false, ◌&&◌, Option, none, some, List, [], ◌∷◌, length, Text, text_eq,
  ◌==◌, if◌then◌else◌,
}

-- `core.PeerInfo`, the fields that the code reads.
pub record Peer : Type 0 where
  pub up : Bool
  pub key : Text
  pub uri : Text
  pub latency : ℕ
  pub cost : ℕ
  pub rx_bytes : ℕ
  pub tx_bytes : ℕ

abbrev pub public_key_size : ℕ
public_key_size = 32

unfoldable pub connected_peer_count : List Peer → ℕ
connected_peer_count [] = 0
connected_peer_count (p ∷ ps) =
    let rest = connected_peer_count ps in if p.up then suc rest else rest

unfoldable pub peer_keys : List Peer → List Text
peer_keys [] = []
peer_keys (p ∷ ps) =
    let rest = peer_keys ps in
    if p.up && length p.key == public_key_size then p.key ∷ rest else rest

unfoldable pub is_peer_of : Text → List Peer → Bool
is_peer_of key [] = false
is_peer_of key (p ∷ ps) =
    let rest = is_peer_of key ps in if p.up && text_eq p.key key then true else rest

-- The search of `directLinkLatency` (internal/yggss/failover.go) and of `report`
-- (internal/yggss/stats.go): the first peering with the key that is up.
unfoldable pub find_peer : Text → List Peer → Option Peer
find_peer key [] = none
find_peer key (p ∷ ps) =
    let rest = find_peer key ps in if p.up && text_eq p.key key then some p else rest

-- An entry of `core.GetTree`.
pub record TreeEntry : Type 0 where
  pub key : Text
  pub parent : Text

unfoldable pub tree_parent : Text → List TreeEntry → Option Text
tree_parent self [] = none
tree_parent self (e ∷ es) =
    let rest = tree_parent self es in if text_eq e.key self then some e.parent else rest

-- An entry of `core.GetPaths`.
pub record PathEntry : Type 0 where
  pub key : Text
  pub path : List ℕ

unfoldable pub path_coords : Text → List PathEntry → Option (List ℕ)
path_coords key [] = none
path_coords key (e ∷ es) =
    let rest = path_coords key es in if text_eq e.key key then some e.path else rest

-- `meshActive` of the client (internal/yggss/tunnel.go).
unfoldable pub mesh_active : List Peer → Bool
unfolding connected_peer_count
mesh_active ps = elim (connected_peer_count ps) [ zero ↦ false | suc n ↦ true ]

-- What the node calls of `net/url` and of the core for its peerings; a call of the core succeeds or fails.
pub record Core (St Url : Type 0) : Type 0 where
  pub parse : Text → Option Url
  pub add : Url → St → St × Bool
  pub remove : Url → St → St × Bool
  pub listens : Url → St → St × Bool

pub data PeerError : Type 0 where
  bad_url refused : PeerError

-- The error of a call of the core.
abbrev answer : {St : Type 0} → St × Bool → St × Option PeerError
answer (st, ok) = (st, if ok then none else some refused)

-- `url.Parse`, and the call of the core.
abbrev pub with_url :
    {St Url : Type 0} → (Url → St → St × Bool) → Option Url → St → St × Option PeerError
with_url call none st = (st, some bad_url)
with_url call (some u) st = answer (call u st)

unfoldable pub add_peer : {St Url : Type 0} → Core St Url → Text → St → St × Option PeerError
add_peer c uri = with_url c.add (c.parse uri)

unfoldable pub remove_peer : {St Url : Type 0} → Core St Url → Text → St → St × Option PeerError
remove_peer c uri = with_url c.remove (c.parse uri)

unfoldable pub listen : {St Url : Type 0} → Core St Url → Text → St → St × Option PeerError
listen c uri = with_url c.listens (c.parse uri)

abbrev pub succeeds : Option PeerError → Bool
succeeds none = true
succeeds (some e) = false
