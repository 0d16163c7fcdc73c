-- ===== src/Status/PathLines.antt =====
-- The line on the tunnel's path in one report of the status log (internal/yggss/stats.go).
use yggss.Base.{
  ℕ, ◌+◌, ◌≡◌, refl, ap, ◌∙◌, Bool, true, false, not, ◌&&◌, Option, none, some, List, [], ◌∷◌, ◌++◌,
  length, Text, Option-cases, Bool-cases, ◌==◌, ◌%◌, ◌^◌, arith, if◌then◌else◌, inl, inr, if_keeps,
}
use yggss.Node.{
  Peer, public_key_size, connected_peer_count, mesh_active, is_peer_of, tree_parent, path_coords,
  find_peer,
}
use yggss.Stream.Totals.{reported}
use yggss.Status.Transit.{Logger, Warning, report_transit}
use yggss.Status.Report.{
  Line, peers_up, no_peers, tunnel_path, Answers, Setup, report, up_lines, peer_line, route_report,
  traffic_line, path_line, route_line, transit_line, link_line, mesh_line,
}

-- The path lines of a report: the printed state, and whether it says that direct QUIC is active.
unfoldable pub path_lines : List Line → List (Text × Bool)
path_lines [] = []
path_lines (tunnel_path state direct ∷ ls) = (state, direct) ∷ path_lines ls
path_lines (_ ∷ ls) = path_lines ls

path_lines-append : (ks ls : List Line) → path_lines (ks ++ ls) ≡ path_lines ks ++ path_lines ls
unfolding path_lines
path_lines-append [] ls = refl
path_lines-append (tunnel_path state direct ∷ ks) ls =
    ap (λ x. (state, direct) ∷ x) (path_lines-append ks ls)
path_lines-append (_ ∷ ks) ls = path_lines-append ks ls

up_lines-none : (n : ℕ) (ps : List Peer) → path_lines (up_lines n ps).1 ≡ []
unfolding path_lines up_lines peer_line
up_lines-none n [] = refl
up_lines-none n (p ∷ ps) =
    let k = (n + (p.rx_bytes + p.tx_bytes)) % 2 ^ 64 in
    if_keeps (λ (x : ℕ × List Line). path_lines x.1 ≡ []) (not p.up) (up_lines n ps)
      ((up_lines k ps).0, peer_line p ∷ (up_lines k ps).1) (up_lines-none n ps) (up_lines-none k ps)

-- There are lines on peerings exactly if one is up.
is_nil : List Line → Bool
is_nil [] = true
is_nil (l ∷ ls) = false

up_lines-some : (n : ℕ) (ps : List Peer) → is_nil (up_lines n ps).1 ≡ not (mesh_active ps)
unfolding up_lines mesh_active is_nil connected_peer_count
up_lines-some n [] = refl
up_lines-some n (p ∷ ps) = elim (Bool-cases p.up) [
  | inl up ↦ rw up refl
  | inr down ↦ rw down (up_lines-some n ps)
]

transit_line-none : (w : Option Warning) → path_lines (transit_line w) ≡ []
unfolding path_lines
transit_line-none none = refl
transit_line-none (some w) = refl

traffic_line-none : (s : Setup) → path_lines (traffic_line s) ≡ []
unfolding path_lines traffic_line
traffic_line-none s = elim (Option-cases (reported s.tun_rx s.tun_tx)) [
  | inl off ↦ ground (arith, off)
  | inr (n, on) ↦ ground (arith, on)
]

link_line-none : (o : Option Peer) → path_lines (link_line o ∷ []) ≡ []
unfolding path_lines link_line
link_line-none none = refl
link_line-none (some p) = refl

mesh_line-none :
    (o : Option Peer) (coords : Option (List ℕ)) → path_lines (mesh_line o coords ∷ []) ≡ []
unfolding path_lines mesh_line
mesh_line-none o coords = refl

route_line-none : (key : Text) (a : Answers) → path_lines (route_line key a ∷ []) ≡ []
unfolding path_lines route_line
route_line-none key a = elim (Bool-cases (is_peer_of key a.peers_of_check)) [
  | inl adjacent ↦ ground (arith, adjacent, link_line-none (find_peer key a.peers_of_route))
  | inr apart ↦ elim (Option-cases (tree_parent a.self a.tree)) [
    | inl unknown ↦ ground (arith, apart, unknown)
    | inr (parent, known) ↦ ground (
      arith,
      apart,
      known,
      mesh_line-none (find_peer parent a.peers_of_route) (path_coords key a.paths),
    )
  ]
]

path_lines-three :
    (js ks ls : List Line)
    → path_lines (js ++ ks ++ ls) ≡ path_lines js ++ path_lines ks ++ path_lines ls
path_lines-three js ks ls =
    path_lines-append (js ++ ks) ls ∙ ap (λ x. x ++ path_lines ls) (path_lines-append js ks)

-- A full report has the path line of its last part.
full_report :
    (n : ℕ) (us : List Line) (w : Option Warning) (rest : List Line)
    → path_lines us ≡ []
    → path_lines ((peers_up n ∷ us) ++ transit_line w ++ rest) ≡ path_lines rest
unfolding path_lines
full_report n us w rest none_up =
    path_lines-three (peers_up n ∷ us) (transit_line w) rest
    ∙ ap (λ x. x ++ path_lines (transit_line w) ++ path_lines rest) none_up
    ∙ ap (λ x. x ++ path_lines rest) (transit_line-none w)

append_empty : (ks : List (Text × Bool)) → ks ++ [] ≡ ks
append_empty [] = refl
append_empty (k ∷ ks) = ap (λ x. k ∷ x) (append_empty ks)

if_same :
    (b : Bool) (ks : List Line) (x : List (Text × Bool))
    → path_lines ks ≡ x
    → path_lines (if b then ks else []) ≡ (if b then x else [])
unfolding path_lines
if_same true ks x e = e
if_same false ks x e = refl

route_report-path :
    (s : Setup) (a : Answers)
    → path_lines (route_report s a)
      ≡ (if length s.server_key == public_key_size then path_lines (path_line s.state) else [])
unfolding route_report path_lines
route_report-path s a = if_same (length s.server_key == public_key_size) _ _ (
    path_lines-three (traffic_line s) (path_line s.state) (route_line s.server_key a ∷ [])
    ∙ ap (λ x. x ++ path_lines (path_line s.state) ++ path_lines (route_line s.server_key a ∷ []))
        (traffic_line-none s)
    ∙ ap (λ x. path_lines (path_line s.state) ++ x) (route_line-none s.server_key a)
    ∙ append_empty (path_lines (path_line s.state)))

-- A report by the lines of its peerings, `whole` being the same as `us`.
assembled : Setup → Answers → Logger → List Line → List Line → Logger × List Line
assembled s a l whole us =
    let transit = report_transit (up_lines 0 a.peers).0 a.sessions l in
    elim us [
      | [] ↦ (record l { started = false }, no_peers ∷ [])
      | x ∷ xs ↦ (
        transit.0,
        (peers_up (length whole) ∷ whole) ++ transit_line transit.1 ++ route_report s a,
      )
    ]

assembled-path :
    (s : Setup) (a : Answers) (l : Logger) (whole us : List Line)
    → path_lines whole ≡ []
    → path_lines (assembled s a l whole us).1
      ≡ (if not (is_nil us) then path_lines (route_report s a) else [])
unfolding path_lines is_nil assembled
assembled-path s a l whole [] none_up = refl
assembled-path s a l whole (x ∷ xs) none_up =
    full_report (length whole) whole (report_transit (up_lines 0 a.peers).0 a.sessions l).1
      (route_report s a) none_up

report-assembled :
    (s : Setup) (a : Answers) (l : Logger)
    → report s a l ≡ (let us = (up_lines 0 a.peers).1 in assembled s a l us us)
unfolding report assembled
report-assembled s a l = refl

-- The two conditions in one.
both_if :
    (p q b : Bool) (x : List (Text × Bool))
    → p ≡ not b
    → (if not p then (if q then x else []) else []) ≡ (if b && q then x else [])
both_if p q b x e = ground (arith, e)

pub report-path :
    (s : Setup) (a : Answers) (l : Logger)
    → path_lines (report s a l).1 ≡ (
        if mesh_active a.peers && length s.server_key == public_key_size
        then path_lines (path_line s.state)
        else [])
report-path s a l =
    let us = (up_lines 0 a.peers).1 in
    let fits = length s.server_key == public_key_size in
    ap (λ (x : Logger × List Line). path_lines x.1) (report-assembled s a l)
    ∙ assembled-path s a l us us (up_lines-none 0 a.peers)
    ∙ ap (λ x. if not (is_nil us) then x else []) (route_report-path s a)
    ∙ both_if (is_nil us) fits (mesh_active a.peers) (path_lines (path_line s.state))
        (up_lines-some 0 a.peers)
