-- ===== src/Status/LogPath.antt =====
-- The lines on the tunnel's path in a client's status log (internal/yggss/stats.go).
use yggss.Base.{
  ℕ, ◌≡◌, refl, ap, ◌∙◌, Bool, ◌&&◌, ◌||◌, some, List, [], ◌∷◌, map, length, Text, ℤ, Bool-cases,
  ◌==◌, if◌then◌else◌, inl, inr, ◌⊎◌, true, false, arith,
}
use yggss.Node.{public_key_size, mesh_active}
use yggss.Tunnel.State.{Tunnel}
use yggss.Tunnel.Direct.{is_verified}
use yggss.Tunnel.Client.{path_state}
use yggss.Tunnel.Prober.{is_h2h3}
use yggss.Status.Transit.{Logger}
use yggss.Status.Report.{report, path_line, path_text}
use yggss.Status.Route.{path_line-active}
use yggss.Status.Log.{reports, Reading, setup_at, is_period, start_client_status_log}
use yggss.Status.PathLines.{path_lines, report-path}

-- What the log is to say of the path at a reading: nothing where no peering is up or the key is none;
-- else the state of the path, and whether the client has a direct path that is verified at that time.
abbrev pub path_at : Text → Reading → List (Text × Bool)
path_at key r =
    let t = r.tunnel in
    if mesh_active r.answers.peers && length key == public_key_size
    then (path_text (path_state r.now t), t.client.has_direct && is_verified r.now t) ∷ []
    else []

-- The state that the client stores does not say H2+H3 at a time when the path is not verified.
unfoldable pub IsFresh : Reading → Type 0
IsFresh r = (is_h2h3 r.tunnel.client.probe_state ≡ false) ⊎ (is_verified r.now r.tunnel ≡ true)

unfoldable pub AllFresh : List Reading → Type 0
AllFresh [] = Unit
AllFresh (r ∷ rs) = IsFresh r × AllFresh rs

path_line-lines :
    (now : ℕ) (t : Tunnel)
    → path_lines (path_line (some (path_state now t)))
      ≡ (
        path_text (path_state now t),
        t.client.has_direct && (is_verified now t || is_h2h3 t.client.probe_state),
      )
        ∷ []
unfolding path_lines
path_line-lines now t = ap path_lines (path_line-active now t)

fresh-direct :
    (r : Reading)
    → IsFresh r
    → (is_verified r.now r.tunnel || is_h2h3 r.tunnel.client.probe_state)
      ≡ is_verified r.now r.tunnel
unfolding IsFresh
fresh-direct r h = ground (arith, h)

path_line-fresh :
    (r : Reading)
    → IsFresh r
    → path_lines (path_line (some (path_state r.now r.tunnel)))
      ≡ (
        path_text (path_state r.now r.tunnel),
        r.tunnel.client.has_direct && is_verified r.now r.tunnel,
      )
        ∷ []
path_line-fresh r h =
    path_line-lines r.now r.tunnel
    ∙ ap (λ b. (path_text (path_state r.now r.tunnel), r.tunnel.client.has_direct && b) ∷ [])
        (fresh-direct r h)

reports-path :
    (key : Text) (l : Logger) (rs : List Reading)
    → AllFresh rs
    → map path_lines (reports l (map (setup_at key) rs)) ≡ map (path_at key) rs
unfolding reports AllFresh
reports-path key l [] h = refl
reports-path key l (r ∷ rs) (now, later) =
    let (setup, answers) = setup_at key r in
    let line =
      report-path setup answers l
      ∙ ap (λ x. if mesh_active answers.peers && length key == public_key_size then x else [])
          (path_line-fresh r now) in
    ap (λ x. x ∷ map path_lines (reports (report setup answers l).0 (map (setup_at key) rs))) line
    ∙ ap (λ x. path_at key r ∷ x) (reports-path key (report setup answers l).0 rs later)

-- With a positive interval, and where at no tick the stored state says H2+H3 while the path is not
-- verified, a client's status log writes at each tick with a peering that is up, and a server key of
-- the right size, one line on the path, with the text of the state at the tick, and calls direct QUIC
-- active exactly if the client has a direct path that is verified then; other ticks write no such
-- line, and without a positive interval nothing is written.
pub client_log-path :
    (interval : ℤ) (key : Text) (rs : List Reading)
    → AllFresh rs
    → map path_lines (start_client_status_log interval key rs)
      ≡ (if is_period interval then map (path_at key) rs else [])
unfolding start_client_status_log
client_log-path interval key rs h = elim (Bool-cases (is_period interval)) [
  | inl on ↦ rw on (reports-path key _ rs h)
  | inr off ↦ rw off refl
]
