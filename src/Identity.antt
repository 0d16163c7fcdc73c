-- ===== src/Identity.antt =====
-- Who may connect: the checks of the peer's certificate on both channels, of the mesh tunnel
-- (internal/yggss/tunnel.go) and of the direct one (internal/yggss/direct.go).
use yggss.Base.{
  ℕ, Bool, true, false, ◌&&◌, ◌||◌, not, Option, none, some, List, [], ◌∷◌, Text, text_eq,
  if◌then◌else◌,
}
pub mod Pinning

-- The key of a certificate: an `ed25519.PublicKey`, or one of another kind.
pub data PublicKey : Type 0 where
  ed25519 : Text → PublicKey
  other_key : PublicKey

pub data Verdict : Type 0 where
  accepted no_certificate bad_certificate not_ed25519 not_allowed key_mismatch : Verdict

-- `allowed[string(pk)]`; nil and the empty map are both the empty whitelist.
unfoldable pub is_allowed : List Text → Text → Bool
is_allowed [] pk = false
is_allowed (k ∷ ks) pk = text_eq k pk || is_allowed ks pk

abbrev pub keys_of : Option (List Text) → List Text
keys_of none = []
keys_of (some ks) = ks

-- `x509.ParseCertificate`, as far as the checks use its result.
module _ (parse : Text → Option PublicKey) where
  -- `VerifyPeerCertificate` of the server's `tlsConfig`, on the certificates that the client sent.
  unfoldable pub verify_client : Option (List Text) → List Text → Verdict
  unfolding is_allowed
  verify_client allowed certs = elim (keys_of allowed) [
    | [] ↦ accepted
    | k ∷ ks ↦ elim certs [
      | [] ↦ no_certificate
      | cert ∷ more ↦ elim (parse cert) [
        | none ↦ bad_certificate
        | some other_key ↦ not_ed25519
        | some (ed25519 pk) ↦ if is_allowed (k ∷ ks) pk then accepted else not_allowed
      ]
    ]
  ]

  -- The same of `directServerTLS`, which is a copy.
  unfoldable pub verify_direct_client : Option (List Text) → List Text → Verdict
  unfolding is_allowed
  verify_direct_client allowed certs = elim (keys_of allowed) [
    | [] ↦ accepted
    | k ∷ ks ↦ elim certs [
      | [] ↦ no_certificate
      | cert ∷ more ↦ elim (parse cert) [
        | none ↦ bad_certificate
        | some other_key ↦ not_ed25519
        | some (ed25519 pk) ↦ if is_allowed (k ∷ ks) pk then accepted else not_allowed
      ]
    ]
  ]

  -- `VerifyPeerCertificate` of the client's `tlsConfig`, on the certificates that the server sent.
  unfoldable pub verify_server : Text → List Text → Verdict
  verify_server server_key [] = no_certificate
  verify_server server_key (cert ∷ more) = elim (parse cert) [
    | none ↦ bad_certificate
    | some other_key ↦ key_mismatch
    | some (ed25519 pk) ↦ if text_eq pk server_key then accepted else key_mismatch
  ]

  -- The same of `directDialTransport`.
  unfoldable pub verify_direct_server : Text → List Text → Verdict
  verify_direct_server server_key [] = no_certificate
  verify_direct_server server_key (cert ∷ more) = elim (parse cert) [
    | none ↦ bad_certificate
    | some other_key ↦ key_mismatch
    | some (ed25519 pk) ↦ if text_eq pk server_key then accepted else key_mismatch
  ]
