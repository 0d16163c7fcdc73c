-- ===== src/Server/Safety.antt =====
-- What the server (internal/yggss/tunnel.go) promises to the shadowsocks server behind it.
use yggss.Base.{ℕ, ◌<◌, ◌≡◌, Option, List, Text}
use yggss.Identity.{PublicKey, accepted}
use yggss.Identity.Pinning.{Trusted, start_server-trusts}
use yggss.Settings.Config.{Vars}
use yggss.Settings.Start.{Answers, ServerRun, serve, start_server}
use yggss.Stream.Pipe.{Pipe}
use yggss.Server.Handler.{Handler}
use yggss.Server.System.{
  Channel, mesh_tunnel, direct_tunnel, Server, new_server, verify, conn_of, Steps,
}
use yggss.Server.Forwarding.{IsPrefix}
use yggss.Server.Admission.{new_server-Inv, Steps-Inv}

verify-Trusted :
    (parse : Text → Option PublicKey) (a : Answers) (v : Vars) (peers : List Text) (r : ServerRun)
    (ch : Channel) (certs : List Text)
    → start_server a v ≡ serve peers r
    → verify parse ch r.allowed certs ≡ accepted
    → Trusted parse v.client_key_hex certs
unfolding verify
verify-Trusted parse a v peers r mesh_tunnel certs h ok =
    (start_server-trusts parse a v peers r certs h).0.0 ok
verify-Trusted parse a v peers r direct_tunnel certs h ok =
    (start_server-trusts parse a v peers r certs h).1.0 ok

-- In every state of a started server, a handler works for a client whose certificate has a key that
-- the setting names, or any client if it names none, and what the handler has given to the
-- shadowsocks server is a prefix of what this client has sent on its stream.
pub served-Trusted :
    (parse : Text → Option PublicKey) (a : Answers) (v : Vars) (peers : List Text) (r : ServerRun)
    (s : Server) (i : ℕ)
    → start_server a v ≡ serve peers r
    → Steps parse (new_server r.allowed) s
    → i < s.next_handler
    → Trusted parse v.client_key_hex (conn_of i s).certs
      × IsPrefix (s.handlers i).forwarded (s.handlers i).sent
served-Trusted parse a v peers r s i started reached lt =
    let inv = Steps-Inv parse r.allowed reached (new_server-Inv parse r.allowed) in
    (
      verify-Trusted parse a v peers r _ _ started
          (inv.admitted (s.handlers i).conn (inv.known i lt)),
      (inv.sound i).whole,
    )
