-- ===== src/Tests/Reports.antt =====
-- The status log (internal/yggss/stats.go).
use yggss.Base.{
  ◌+◌, ◌*◌, ◌^◌, ◌%◌, ◌≡◌, refl, true, none, some, List, [], ◌∷◌, codes, text_eq, ◌<◌, ◌-◌, arith,
}
use yggss.Node.{Peer, find_peer, is_peer_of}
use yggss.Status.Size.{scaled, format_bytes, Fits, format_bytes-Fits}
use yggss.Status.Transit.{
  Session, Logger, session_bytes, report_transit, estimate, report_transit_lem,
}
use yggss.Status.Report.{Answers, no_peers, direct_link, peer_latency, route_line, report, up_lines}

half_kib : format_bytes 1536 ≡ scaled 1536 1024 (some 75)
unfolding format_bytes
half_kib = refl

largest : format_bytes (2 ^ 64 - 1) ≡ scaled (2 ^ 64 - 1) (1024 ^ 6) (some 69)
unfolding format_bytes
largest = refl

format_bytes-Fits_example : Fits (5 * 1024 ^ 3) (format_bytes (5 * 1024 ^ 3))
format_bytes-Fits_example = format_bytes-Fits (5 * 1024 ^ 3) (omega arith)

-- One session has moved 3 MiB of the 9 MiB on the peerings.
abbrev sessions : List Session
sessions = record { rx_bytes = 1000; tx_bytes = 3 * 1024 ^ 2 } ∷ []

abbrev earlier : Logger
earlier = record { prev_link = 2 ^ 64 - 5; prev_session = 1000; started = true }

sum : session_bytes 0 sessions ≡ (1000 + 3 * 1024 ^ 2) % 2 ^ 64
unfolding session_bytes
sum = refl

report_transit_lem_example :
    report_transit ((2 ^ 64 - 5 + 9 * 1024 ^ 2) % 2 ^ 64) sessions earlier ≡ (
      record {
        prev_link = (2 ^ 64 - 5 + 9 * 1024 ^ 2) % 2 ^ 64;
        prev_session = session_bytes 0 sessions;
        started = true;
      },
      estimate (9 * 1024 ^ 2) (3 * 1024 ^ 2),
    )
report_transit_lem_example =
    report_transit_lem (9 * 1024 ^ 2) (3 * 1024 ^ 2) sessions earlier refl (omega arith)
      (omega arith) (omega arith) (omega arith) sum

below : session_bytes 0 sessions < 2 ^ 63
unfolding session_bytes
below = omega arith

abbrev link : Peer
link = record {
  up = true;
  key = codes "K";
  uri = codes "tls://h:1";
  latency = 7500000;
  cost = 1;
  rx_bytes = 0;
  tx_bytes = 0;
}

abbrev pub answers : Answers
answers = record {
  peers = link ∷ [];
  peers_of_check = link ∷ [];
  peers_of_route = link ∷ [];
  sessions = [];
  self = codes "S";
  tree = [];
  paths = [];
}

route_named : route_line (codes "K") answers ≡ direct_link (codes "tls://h:1") (some 7000000)
unfolding route_line is_peer_of find_peer text_eq peer_latency
route_named = refl

quiet :
    (report
      (record { server_key = []; tun_rx = none; tun_tx = none; state = none })
      (record answers { peers = [] })
      earlier).1
    ≡ no_peers ∷ []
unfolding report up_lines
quiet = refl
