-- ===== src/Tests/Logs.antt =====
-- The status log of a client over three ticks (internal/yggss/stats.go).
use yggss.Base.{◌≡◌, refl, true, inl, inr, [], ◌∷◌, map, Text, codes, pos}
use yggss.Node.{mesh_active}
use yggss.Stream.Pipe.{TunnelCounters}
use yggss.Status.Log.{Reading, start_client_status_log}
use yggss.Status.PathLines.{path_lines}
use yggss.Status.LogPath.{path_at, AllFresh, IsFresh, client_log-path}
use yggss.Tunnel.Client.{path_state}
use yggss.Tunnel.Direct.{is_verified}
use yggss.Status.Report.{path_text}
use yggss.Tests.Data.{fresh, upgraded}
use yggss.Tests.Starts.{repeat}
use yggss.Tests.Reports.{answers}

abbrev key : Text
key = repeat 32 170

abbrev zero_count : TunnelCounters
zero_count = record { rx = 0; tx = 0 }

abbrev before : Reading
before = record { now = 200; tunnel = fresh; rx = zero_count; tx = zero_count; answers = answers }

abbrev after : Reading
unfolding upgraded
after = record {
  now = 3000;
  tunnel = upgraded;
  rx = zero_count;
  tx = zero_count;
  answers = answers;
}

abbrev alone : Reading
alone = record {
  now = 4000;
  tunnel = fresh;
  rx = zero_count;
  tx = zero_count;
  answers = record answers { peers = [] };
}

readings-AllFresh : AllFresh (before ∷ after ∷ alone ∷ [])
unfolding upgraded is_verified AllFresh IsFresh
readings-AllFresh = (inl refl, (inr refl, (inl refl, tt)))

client_log-path_example :
    map path_lines (start_client_status_log (pos 30) key (before ∷ after ∷ alone ∷ []))
    ≡ path_at key before ∷ path_at key after ∷ path_at key alone ∷ []
client_log-path_example =
    client_log-path (pos 30) key (before ∷ after ∷ alone ∷ []) readings-AllFresh

says_upgraded : path_at key after ≡ (codes "h2+h3 (direct verified)", true) ∷ []
unfolding upgraded path_state is_verified path_text mesh_active
says_upgraded = refl
