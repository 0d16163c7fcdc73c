-- ===== src/Tests/Identities.antt =====
-- Certificates of peers and the keys of the configuration.
use yggss.Base.{◌≡◌, ◌↔◌, refl, false, Option, none, some, [], ◌∷◌, Text, codes, text_eq, pos}
use yggss.Settings.Strings.{split, trim_space, trim_left, trim_right, contains_text, contains}
use yggss.Settings.Config.{Vars}
use yggss.Settings.Keys.{parse_key, decode_hex}
use yggss.Settings.Start.{ClientRun, connect, keep_parts, start_client}
use yggss.Identity.{
  PublicKey, ed25519, accepted, not_allowed, key_mismatch, verify_client, verify_direct_client,
  verify_server, verify_direct_server,
}
use yggss.Identity.Pinning.{Trusted, Pinned, start_server-trusts, start_client-pins}
use yggss.Tests.Starts.{vars, admitting, run, all_ok, started, repeat}

-- The certificate is the key itself.
abbrev pub parse : Text → Option PublicKey
parse [] = none
parse (c ∷ s) = some (ed25519 (c ∷ s))

stranger : verify_client parse run.allowed (codes "k" ∷ []) ≡ not_allowed
unfolding verify_client text_eq
stranger = refl

start_server-trusts_example :
    ((verify_client parse run.allowed (repeat 32 170 ∷ []) ≡ accepted)
      ↔ Trusted parse admitting.client_key_hex (repeat 32 170 ∷ []))
    × ((verify_direct_client parse run.allowed (repeat 32 170 ∷ []) ≡ accepted)
        ↔ Trusted parse admitting.client_key_hex (repeat 32 170 ∷ []))
start_server-trusts_example =
    start_server-trusts parse all_ok admitting (codes "tls://p:1" ∷ []) run (repeat 32 170 ∷ [])
      started

abbrev pub calling : Vars
calling = record vars { is_server = false; server_key_hex = repeat 64 97; sni = codes "w" }

abbrev pub escape : Text → Text
escape s = s

abbrev pub call : ClientRun
call = record {
  uri = codes "tls://h:1?sni=w";
  server_key = repeat 32 170;
  bind = codes ":4440";
  direct = none;
  failover = some (pos 1000, pos 5);
  timeout = pos 30;
  log_interval = pos 30;
}

pub called : start_client escape calling ≡ connect (codes "tls://p:1" ∷ []) call
unfolding start_client parse_key decode_hex keep_parts split trim_space trim_left trim_right text_eq
    contains_text contains
called = refl

impostor : verify_direct_server parse call.server_key (codes "k" ∷ []) ≡ key_mismatch
unfolding verify_direct_server text_eq
impostor = refl

start_client-pins_example :
    ((verify_server parse call.server_key (repeat 32 170 ∷ []) ≡ accepted)
      ↔ Pinned parse calling.server_key_hex (repeat 32 170 ∷ []))
    × ((verify_direct_server parse call.server_key (repeat 32 170 ∷ []) ≡ accepted)
        ↔ Pinned parse calling.server_key_hex (repeat 32 170 ∷ []))
start_client-pins_example =
    start_client-pins parse escape calling (codes "tls://p:1" ∷ []) call (repeat 32 170 ∷ []) called
