-- ===== src/Settings/Keys.antt =====
-- Keys in hex: `parseKey` of cmd/yggss/main.go, and the private key of `NewNode`
-- (internal/yggss/node.go).
use yggss.Base.{
  ℕ, ◌+◌, ◌-◌, ◌*◌, Bool, ◌&&◌, not, Option, none, some, [], ◌∷◌, length, Text, leb, ◌==◌,
  if◌then◌else◌,
}
use yggss.Settings.Strings.{is_empty, trim_space}

abbrev pub hex_digit : ℕ → Option ℕ
hex_digit c =
    if leb 48 c && leb c 57
    then some (c - 48)
    else if leb 97 c && leb c 102
    then some (c - 87)
    else if leb 65 c && leb c 70
    then some (c - 55)
    else none

abbrev pub byte : Option ℕ → Option ℕ → Option Text → Option Text
byte (some h) (some l) (some rest) = some ((h * 16 + l) ∷ rest)
byte _ _ _ = none

-- `hex.DecodeString`.
unfoldable pub decode_hex : Text → Option Text
decode_hex [] = some []
decode_hex (h ∷ []) = none
decode_hex (h ∷ l ∷ s) = byte (hex_digit h) (hex_digit l) (decode_hex s)

unfoldable pub parse_key : Text → ℕ → Option Text
unfolding decode_hex
parse_key s size = elim (decode_hex (trim_space s)) [
  | none ↦ none
  | some b ↦ if length b == size then some b else none
]

abbrev pub private_key_size : ℕ
private_key_size = 64

pub data NodeError : Type 0 where
  no_random bad_hex bad_size no_certificate no_core : NodeError

-- `Node`, as far as it is made here: its private key, whether that is an ephemeral one, and the
-- group password that the core is given.
pub record Node : Type 0 where
  pub private_key : Text
  pub ephemeral : Bool
  pub group_password : Option Text

pub data Made (A : Type 0) : Type 0 where
  made : A → Made A
  failed : NodeError → Made A

-- What the libraries answer: `GenerateKey`, `GenerateSelfSignedCertificate`, `core.New`.
pub record NodeAnswers : Type 0 where
  pub generated : Option Text
  pub certificate_ok : Bool
  pub core_ok : Bool

abbrev pub sized : Text → Made Text
sized b = if length b == private_key_size then made b else failed bad_size

abbrev pub from_hex : Option Text → Made Text
from_hex none = failed bad_hex
from_hex (some b) = sized b

abbrev pub from_random : Option Text → Made Text
from_random none = failed no_random
from_random (some p) = made p

unfoldable pub private_key : Option Text → Text → Made Text
unfolding decode_hex
private_key generated key_hex =
    if is_empty (trim_space key_hex)
    then from_random generated
    else from_hex (decode_hex (trim_space key_hex))

-- `NewNode` once it has the private key.
unfoldable pub node_with : NodeAnswers → Text → Text → Text → Made Node
node_with a key_hex password priv =
    if not a.certificate_ok
    then failed no_certificate
    else if not a.core_ok
    then failed no_core
    else made (record {
      private_key = priv;
      ephemeral = is_empty (trim_space key_hex);
      group_password = if is_empty password then none else some password;
    })

unfoldable pub new_node : NodeAnswers → Text → Text → Made Node
unfolding private_key node_with
new_node a key_hex password = elim (private_key a.generated key_hex) [
  | failed e ↦ failed e
  | made priv ↦ node_with a key_hex password priv
]
