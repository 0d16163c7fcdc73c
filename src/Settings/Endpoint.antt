-- ===== src/Settings/Endpoint.antt =====
-- The addresses of the direct tunnel (internal/yggss/direct.go): `resolveUDP`, where
-- `directDialTransport` dials to and from, and where `startDirectListener` listens.
use yggss.Base.{
  ◌≡◌, ◌⊎◌, inl, inr, refl, sym, ap, ◌∙◌, Option, none, some, Option-cases, List, [], ◌∷◌, Text, ℤ,
  arith,
}
use yggss.Settings.Address.{parse_host_port}

pub data Family : Type 0 where
  ipv4 ipv6 : Family

-- `net.IP`: whether `To4` gives an address, and its bytes.
pub record Ip : Type 0 where
  pub family : Family
  pub bytes : Text

pub record UdpAddr : Type 0 where
  pub ip : Ip
  pub port : ℤ

-- `net.ParseIP` and `net.LookupIP`.
pub record Resolver : Type 0 where
  pub parse_ip : Text → Option Ip
  pub lookup_ip : Text → Option (List Ip)

abbrev is_six : Family → Option Ip → Ip → Option Ip
is_six ipv6 later ip = some ip
is_six ipv4 later ip = later

unfoldable pub first_six : List Ip → Option Ip
first_six [] = none
first_six (ip ∷ ips) = is_six ip.family (first_six ips) ip

-- What `resolveUDP` takes from a lookup: its first IPv6 address, or else its first address.
unfoldable pub prefer_six : List Ip → Option Ip
unfolding first_six
prefer_six [] = none
prefer_six (ip ∷ ips) = elim (first_six (ip ∷ ips)) [ some six ↦ some six | none ↦ some ip ]

abbrev at_port : ℤ → Option Ip → Option UdpAddr
at_port port none = none
at_port port (some ip) = some (record { ip = ip; port = port })

unfoldable pub resolve_udp : Resolver → Text → ℤ → Option UdpAddr
unfolding prefer_six
resolve_udp r host port = elim (r.parse_ip host) [
  | some ip ↦ at_port port (some ip)
  | none ↦ elim (r.lookup_ip host) [ none ↦ none | some ips ↦ at_port port (prefer_six ips) ]
]

-- The address that is dialled, and the family of the socket that dials.
unfoldable pub dial_endpoint : Resolver → Text → Option (UdpAddr × Family)
unfolding resolve_udp
dial_endpoint r server_addr = elim (parse_host_port server_addr) [
  | none ↦ none
  | some hp ↦ elim (resolve_udp r hp.0 hp.1) [
    | none ↦ none
    | some raddr ↦ some (raddr, raddr.ip.family)
  ]
]

abbrev listen_family : Option Ip → Family
listen_family none = ipv6
listen_family (some ip) = ip.family

-- The family and the port of the listener; an IPv6 one is dual-stack.
unfoldable pub listen_endpoint : Resolver → Text → Option (Family × ℤ)
listen_endpoint r bind = elim (parse_host_port bind) [
  | none ↦ none
  | some hp ↦ some (listen_family (r.parse_ip hp.0), hp.1)
]

pub In : Ip → List Ip → Type 0
In ip [] = ⊥
In ip (x ∷ xs) = (ip ≡ x) ⊎ In ip xs

pub AllFour : List Ip → Type 0
AllFour [] = Unit
AllFour (x ∷ xs) = (x.family ≡ ipv4) × AllFour xs

-- The address stands for the host: as a literal, or as one that the lookup finds, of IPv6 unless the
-- lookup finds none.
pub StandsFor : Resolver → Text → Ip → Type 0
StandsFor r host ip =
    (r.parse_ip host ≡ some ip)
    ⊎ ((ips : List Ip) × (r.parse_ip host ≡ none)
        × (r.lookup_ip host ≡ some ips)
        × In ip ips
        × ((ip.family ≡ ipv6) ⊎ AllFour ips))

Family-cases : (f : Family) → (f ≡ ipv4) ⊎ (f ≡ ipv6)
Family-cases ipv4 = inl refl
Family-cases ipv6 = inr refl

first_six-step4 : (x : Ip) (xs : List Ip) → x.family ≡ ipv4 → first_six (x ∷ xs) ≡ first_six xs
unfolding first_six
first_six-step4 x xs e = ap (λ f. is_six f (first_six xs) x) e

first_six-step6 : (x : Ip) (xs : List Ip) → x.family ≡ ipv6 → first_six (x ∷ xs) ≡ some x
unfolding first_six
first_six-step6 x xs e = ap (λ f. is_six f (first_six xs) x) e

the_same : (ip x : Ip) → some x ≡ some ip → ip ≡ x
the_same ip x e = cc

first_six-found :
    (ips : List Ip) (ip : Ip) → first_six ips ≡ some ip → In ip ips × (ip.family ≡ ipv6)
unfolding first_six In
first_six-found [] ip h = absurd cc
first_six-found (x ∷ xs) ip h = elim (Family-cases x.family) [
  | inl four ↦
      let found = first_six-found xs ip (sym (first_six-step4 x xs four) ∙ h) in
      (inr found.0, found.1)
  | inr six ↦
      let same = the_same ip x (sym (first_six-step6 x xs six) ∙ h) in
      (inl same, ap (λ y. y.family) same ∙ six)
]

first_six-none : (ips : List Ip) → first_six ips ≡ none → AllFour ips
unfolding AllFour first_six
first_six-none [] h = tt
first_six-none (x ∷ xs) h = elim (Family-cases x.family) [
  | inl four ↦ (four, first_six-none xs (sym (first_six-step4 x xs four) ∙ h))
  | inr six ↦ let found = first_six-step6 x xs six in absurd (cc (found, h))
]

prefer_six_lem :
    (ips : List Ip) (ip : Ip)
    → prefer_six ips ≡ some ip
    → In ip ips × ((ip.family ≡ ipv6) ⊎ AllFour ips)
unfolding prefer_six In
prefer_six_lem [] ip h = absurd cc
prefer_six_lem (x ∷ xs) ip h = elim (Option-cases (first_six (x ∷ xs))) [
  | inl no_six ↦ (inl (ground (arith, no_six)), inr (first_six-none (x ∷ xs) no_six))
  | inr (six, e) ↦
      let found = first_six-found (x ∷ xs) ip (ground (arith, e)) in (found.0, inl found.1)
]

resolve_udp_lem :
    (r : Resolver) (host : Text) (port : ℤ) (a : UdpAddr)
    → resolve_udp r host port ≡ some a
    → (a.port ≡ port) × StandsFor r host a.ip
unfolding resolve_udp StandsFor
resolve_udp_lem r host port a h = elim (Option-cases (r.parse_ip host)) [
  | inr (ip, literal) ↦ (ground arith, inl (ground arith))
  | inl name ↦ elim (Option-cases (r.lookup_ip host)) [
    | inl unknown ↦ absurd (ground arith)
    | inr (ips, known) ↦ elim (Option-cases (prefer_six ips)) [
      | inl empty ↦ absurd (ground arith)
      | inr (ip, chosen) ↦
          let same : some a.ip ≡ some ip = ground arith in
          let (found, six) = prefer_six_lem ips a.ip (chosen ∙ sym same) in
          (ground arith, inr (ips, name, known, found, six))
    ]
  ]
]

-- A listener of the family takes what is sent to the address: the host is a literal, the address,
-- and the family is the literal's; or the host is a name, and the family is IPv6 (dual-stack).
pub Reaches : Resolver → Text → Ip → Family → Type 0
Reaches r host ip family =
    ((r.parse_ip host ≡ some ip) × (family ≡ ip.family))
    ⊎ ((r.parse_ip host ≡ none) × (family ≡ ipv6))

family_meets :
    (r : Resolver) (host : Text) (ip : Ip)
    → StandsFor r host ip
    → Reaches r host ip (listen_family (r.parse_ip host))
unfolding StandsFor Reaches
family_meets r host ip s = elim s [
  | inl literal ↦ inl (literal, ap listen_family literal)
  | inr (ips, name, known, found, six) ↦ inr (name, ap listen_family name)
]

-- Where the direct client finds an address to dial, it has the port of the configured one, it is the
-- literal that the host is, or one of the addresses that the lookup finds for it, an IPv6 one unless
-- there is none, and the local socket is of the same family. A listener that is bound to the same
-- text listens on the same port, with the family of the dialled address where the host is a literal,
-- and with IPv6 (dual-stack) where it is a name, whatever the lookup finds for it.
pub dial_endpoint-meets :
    (r : Resolver) (addr : Text) (a : UdpAddr) (local : Family)
    → dial_endpoint r addr ≡ some (a, local)
    → (local ≡ a.ip.family)
      × ((host : Text) × (port : ℤ) × (parse_host_port addr ≡ some (host, port))
          × (a.port ≡ port)
          × StandsFor r host a.ip
          × ((family : Family) × (listen_endpoint r addr ≡ some (family, a.port))
              × Reaches r host a.ip family))
unfolding dial_endpoint listen_endpoint
dial_endpoint-meets r addr a local h = elim (Option-cases (parse_host_port addr)) [
  | inl unread ↦ absurd (ground arith)
  | inr (hp, read) ↦ elim (Option-cases (resolve_udp r hp.0 hp.1)) [
    | inl unknown ↦ absurd (ground arith)
    | inr (found, resolved) ↦
        let same : some found ≡ some a = ground arith in
        let (port, stands) = resolve_udp_lem r hp.0 hp.1 a (resolved ∙ same) in
        (
          ground arith,
          (
            hp.0,
            hp.1,
            read,
            port,
            stands,
            (listen_family (r.parse_ip hp.0), ground arith, family_meets r hp.0 a.ip stands),
          ),
        )
  ]
]
