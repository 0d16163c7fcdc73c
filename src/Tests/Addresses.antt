-- ===== src/Tests/Addresses.antt =====
-- Addresses of endpoints (internal/yggss/direct.go).
use yggss.Base.{none, [], ◌∷◌, Text, ℤ, ◌≡◌, refl, true, false, some, codes, pos, text_eq}
use yggss.Settings.Strings.{contains, cut}
use yggss.Settings.Options.{join_host_port}
use yggss.Settings.Environment.{atoi}
use yggss.Settings.Endpoint.{
  Family, ipv4, ipv6, Ip, UdpAddr, Resolver, first_six, prefer_six, resolve_udp, dial_endpoint,
  listen_endpoint, StandsFor, Reaches, dial_endpoint-meets,
}
use yggss.Settings.Address.{
  after_scheme, before_path, split_host_port, bracketed, parse_host_port, parse_host_port-join,
  plain,
}

six_host : parse_host_port (codes "tls://[::1]:443/x") ≡ some (codes "::1", pos 443)
unfolding parse_host_port atoi split_host_port bracketed cut contains text_eq after_scheme
    before_path
six_host = refl

port_number : atoi (codes "443") ≡ some (pos 443)
unfolding atoi text_eq
port_number = refl

is_plain : plain (codes "::1") ≡ true
unfolding contains
is_plain = refl

port_plain : plain (codes "443") ≡ true
unfolding contains
port_plain = refl

one_port : contains 58 (codes "443") ≡ false
unfolding contains
one_port = refl

parse_host_port-join_example :
    parse_host_port (join_host_port (codes "::1") (codes "443")) ≡ some (codes "::1", pos 443)
parse_host_port-join_example =
    parse_host_port-join (codes "::1") (codes "443") (pos 443) is_plain port_plain one_port
      port_number

abbrev four : Ip
four = record { family = ipv4; bytes = codes "4" }

abbrev six : Ip
six = record { family = ipv6; bytes = codes "6" }

abbrev dns : Resolver
dns = record { parse_ip = λ s. none; lookup_ip = λ s. some (four ∷ six ∷ []) }

abbrev far : UdpAddr
far = record { ip = six; port = pos 443 }

prefers_six : dial_endpoint dns (codes "tls://h:443") ≡ some (far, ipv6)
unfolding dial_endpoint resolve_udp prefer_six first_six parse_host_port atoi split_host_port
    contains text_eq after_scheme before_path
prefers_six = refl

dial_endpoint-meets_example :
    (ipv6 ≡ far.ip.family)
    × ((host : Text) × (port : ℤ) × (parse_host_port (codes "tls://h:443") ≡ some (host, port))
        × (far.port ≡ port)
        × StandsFor dns host far.ip
        × ((family : Family) × (listen_endpoint dns (codes "tls://h:443") ≡ some (family, far.port))
            × Reaches dns host far.ip family))
dial_endpoint-meets_example = dial_endpoint-meets dns (codes "tls://h:443") far ipv6 prefers_six
