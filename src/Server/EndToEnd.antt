-- ===== src/Server/EndToEnd.antt =====
-- The client's `pipe` (`handle` of internal/yggss/tunnel.go) and the server's, joined by a stream.
use yggss.Base.{ℕ, ◌≡◌, sym, ap, ◌∙◌, Option, List, ◌++◌, Text}
use mathlib.Core.List.{append_assoc}
use yggss.Identity.{PublicKey}
use yggss.Stream.Pipe.{TunnelCounters, Turn, Direction, pipe}
use yggss.Stream.Traffic.{chunks_into_a, chunks_into_b, pipe-prefix}
use yggss.Server.System.{Server, new_server, Steps}
use yggss.Server.Forwarding.{IsPrefix}
use yggss.Server.Admission.{new_server-Inv, Steps-Inv}

-- From end to end, if QUIC hands the server the bytes that the client's `pipe` has written to the
-- stream: whatever the reads, writes and errors on both sides and their order, what the server has
-- given to the shadowsocks server is a prefix of the bytes that the client has read from ss-local.
pub upload-prefix :
    (parse : Text → Option PublicKey) (allowed : Option (List Text)) (s : Server) (i : ℕ)
    (rx tx : Option TunnelCounters) (ts : List (Direction × Turn))
    → Steps parse (new_server allowed) s
    → (s.handlers i).sent ≡ (pipe rx tx ts).to_a.delivered
    → (lost : Text) × ((s.handlers i).forwarded ++ lost ≡ chunks_into_a ts)
unfolding IsPrefix
upload-prefix parse allowed s i rx tx ts reached carried =
    let inv = Steps-Inv parse allowed reached (new_server-Inv parse allowed) in
    let (waiting, got) = (inv.sound i).whole in
    let (lost, written) = (pipe-prefix rx tx ts).0 in
    (
      waiting ++ lost,
      sym (append_assoc (s.handlers i).forwarded waiting lost)
          ∙ ap (λ t. t ++ lost) (got ∙ carried)
          ∙ written,
    )

-- In the other direction, if the chunks that the client reads from the stream make up a prefix of
-- what the server's `pipe` has written to it: whatever the reads, writes and errors on both sides and
-- their order, what the client has given to ss-local is a prefix of the bytes that the server has
-- read from the shadowsocks server.
pub download-prefix :
    (rx tx rx' tx' : Option TunnelCounters) (client server : List (Direction × Turn))
    → IsPrefix (chunks_into_b client) (pipe rx tx server).to_a.delivered
    → IsPrefix (pipe rx' tx' client).to_b.delivered (chunks_into_a server)
unfolding IsPrefix
download-prefix rx tx rx' tx' client server carried =
    let (travelling, arrived) = carried in
    let (unwritten, given) = (pipe-prefix rx' tx' client).1 in
    let (lost, written) = (pipe-prefix rx tx server).0 in
    (
      unwritten ++ (travelling ++ lost),
      sym (append_assoc (pipe rx' tx' client).to_b.delivered unwritten (travelling ++ lost))
          ∙ ap (λ t. t ++ (travelling ++ lost)) given
          ∙ sym (append_assoc (chunks_into_b client) travelling lost)
          ∙ ap (λ t. t ++ lost) arrived
          ∙ written,
    )
