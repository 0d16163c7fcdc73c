-- ===== src/Settings/KeyPrint.antt =====
-- The key pair that `-genkey` prints (cmd/yggss/main.go), and how it is read back: as the private key
-- of a node (internal/yggss/node.go) and as the public key of `-serverkey` and `-clientkey`.
use yggss.Base.{
  ℕ, ◌+◌, ◌*◌, ◌/◌, ◌%◌, ◌<◌, ◌≡◌, refl, ap, ◌∙◌, Bool, true, false, ◌&&◌, Option, none, some, [],
  ◌∷◌, length, Text, ltb, ==_iff, arith, if◌then◌else◌,
}
use yggss.Node.{public_key_size}
use yggss.Settings.Strings.{is_empty, is_space, trim_space, trim_left, trim_right}
use yggss.Settings.Keys.{
  hex_digit, decode_hex, parse_key, private_key_size, Node, made, NodeAnswers, private_key,
  node_with, new_node,
}

abbrev hex_char : ℕ → ℕ
hex_char n = if ltb n 10 then 48 + n else 87 + n

-- `hex.EncodeToString`.
unfoldable pub encode_hex : Text → Text
encode_hex [] = []
encode_hex (b ∷ s) = hex_char (b / 16) ∷ hex_char (b % 16) ∷ encode_hex s

-- What `genAndPrintKey` prints.
pub record Printed : Type 0 where
  pub private_hex : Text
  pub public_hex : Text
  pub address : Text

-- `genAndPrintKey`: `generated` is the answer of `ed25519.GenerateKey`, and it panics on an error;
-- `address_of` is `address.AddrForKey` and the text of the address.
unfoldable pub gen_and_print_key : (Text → Text) → Option (Text × Text) → Option Printed
unfolding encode_hex
gen_and_print_key address_of none = none
gen_and_print_key address_of (some (public, private)) = some (record {
  private_hex = encode_hex private;
  public_hex = encode_hex public;
  address = address_of public;
})

-- Every number of the text is a byte.
abbrev pub all_bytes : Text → Bool
all_bytes [] = true
all_bytes (b ∷ s) = ltb b 256 && all_bytes s

digit_back : (n : ℕ) → n < 16 → hex_digit (hex_char n) ≡ some n
digit_back n h = ground arith

char_no_space : (n : ℕ) → n < 16 → is_space (hex_char n) ≡ false
char_no_space n h = ground arith

high : (b : ℕ) → ltb b 256 ≡ true → b / 16 < 16
high b h = ground arith

low : (b : ℕ) → b % 16 < 16
low b = omega arith

both : (b : ℕ) → (b / 16) * 16 + b % 16 ≡ b
both b = omega arith

head_byte :
    (b : ℕ) (s : Text) → all_bytes (b ∷ s) ≡ true → (ltb b 256 ≡ true) × (all_bytes s ≡ true)
head_byte b s h = ground arith

decode_hex-encode_hex : (s : Text) → all_bytes s ≡ true → decode_hex (encode_hex s) ≡ some s
unfolding decode_hex encode_hex
decode_hex-encode_hex [] h = refl
decode_hex-encode_hex (b ∷ s) h =
    let (is_byte, rest) = head_byte b s h in
    rw
      (
        digit_back (b / 16) (high b is_byte),
        digit_back (b % 16) (low b),
        decode_hex-encode_hex s rest,
        both b,
      )
      refl

trim_left-encode_hex : (s : Text) → all_bytes s ≡ true → trim_left (encode_hex s) ≡ encode_hex s
unfolding trim_left encode_hex
trim_left-encode_hex [] h = refl
trim_left-encode_hex (b ∷ s) h =
    let (is_byte, rest) = head_byte b s h in rw (char_no_space (b / 16) (high b is_byte)) refl

-- Where the first character is no space, trimming on the right keeps it.
trim_right-cons :
    (c : ℕ) (s : Text) → is_space c ≡ false → trim_right s ≡ s → trim_right (c ∷ s) ≡ c ∷ s
unfolding trim_right
trim_right-cons c s h e = ground arith

trim_right-encode_hex : (s : Text) → all_bytes s ≡ true → trim_right (encode_hex s) ≡ encode_hex s
unfolding trim_right encode_hex
trim_right-encode_hex [] h = refl
trim_right-encode_hex (b ∷ s) h =
    let (is_byte, rest) = head_byte b s h in
    trim_right-cons _ _ (char_no_space (b / 16) (high b is_byte))
      (trim_right-cons _ _ (char_no_space (b % 16) (low b)) (trim_right-encode_hex s rest))

trim_space-encode_hex : (s : Text) → all_bytes s ≡ true → trim_space (encode_hex s) ≡ encode_hex s
unfolding trim_space
trim_space-encode_hex s h = ap trim_right (trim_left-encode_hex s h) ∙ trim_right-encode_hex s h

parse_key-encode_hex :
    (s : Text) (size : ℕ)
    → all_bytes s ≡ true
    → length s ≡ size
    → parse_key (encode_hex s) size ≡ some s
unfolding parse_key
parse_key-encode_hex s size h e =
    ground
      (arith, trim_space-encode_hex s h, decode_hex-encode_hex s h, (==_iff (length s) size).1 e)

encode_hex-not_empty : (s : Text) → length s ≡ private_key_size → is_empty (encode_hex s) ≡ false
unfolding encode_hex
encode_hex-not_empty [] e = ground arith
encode_hex-not_empty (b ∷ s) e = refl

private_key-encode_hex :
    (generated : Option Text) (s : Text)
    → all_bytes s ≡ true
    → length s ≡ private_key_size
    → private_key generated (encode_hex s) ≡ made s
unfolding private_key
private_key-encode_hex generated s h e =
    rw
      (
        trim_space-encode_hex s h,
        encode_hex-not_empty s e,
        decode_hex-encode_hex s h,
        (==_iff (length s) private_key_size).1 e,
      )
      refl

new_node-made :
    (a : NodeAnswers) (key_hex password priv : Text)
    → private_key a.generated key_hex ≡ made priv
    → new_node a key_hex password ≡ node_with a key_hex password priv
unfolding new_node
new_node-made a key_hex password priv e = ground (arith, e)

node_with-made :
    (a : NodeAnswers) (key_hex password priv : Text)
    → a.certificate_ok ≡ true
    → a.core_ok ≡ true
    → is_empty (trim_space key_hex) ≡ false
    → (n : Node) × (node_with a key_hex password priv ≡ made n)
      × (n.private_key ≡ priv)
      × (n.ephemeral ≡ false)
unfolding node_with
node_with-made a key_hex password priv cert core given =
    let n : Node = record {
      private_key = priv;
      ephemeral = is_empty (trim_space key_hex);
      group_password = if is_empty password then none else some password;
    } in
    (n, ground (arith, cert, core), refl, given)

printed :
    (address_of : Text → Text) (public private : Text) (p : Printed)
    → gen_and_print_key address_of (some (public, private)) ≡ some p
    → (p.private_hex ≡ encode_hex private) × (p.public_hex ≡ encode_hex public)
unfolding gen_and_print_key
printed address_of public private p e = ground (arith, e)

-- The key pair that `-genkey` prints is read back as it was made: a node that is set up with the
-- printed private key has that private key and is not ephemeral, and the printed public key is parsed
-- as that public key; if the pair consists of bytes, the private key has 64 of them and the public
-- key has 32, and the certificate and the core are set up.
pub gen_and_print_key-read :
    (address_of : Text → Text) (public private password : Text) (p : Printed) (a : NodeAnswers)
    → gen_and_print_key address_of (some (public, private)) ≡ some p
    → all_bytes public ≡ true
    → all_bytes private ≡ true
    → length public ≡ public_key_size
    → length private ≡ private_key_size
    → a.certificate_ok ≡ true
    → a.core_ok ≡ true
    → (parse_key p.public_hex public_key_size ≡ some public)
      × ((n : Node) × (new_node a p.private_hex password ≡ made n)
          × (n.private_key ≡ private)
          × (n.ephemeral ≡ false))
gen_and_print_key-read address_of public private password p a e pub_bytes priv_bytes pub_size
      priv_size cert core =
    let (private_printed, public_printed) = printed address_of public private p e in
    let given =
      ap is_empty (trim_space-encode_hex private priv_bytes)
      ∙ encode_hex-not_empty private priv_size in
    let (n, done, key, kept) =
      node_with-made a (encode_hex private) password private cert core given in
    let setup =
      new_node-made a (encode_hex private) password private
        (private_key-encode_hex a.generated private priv_bytes priv_size)
      ∙ done in
    (
      ap (λ x. parse_key x public_key_size) public_printed
          ∙ parse_key-encode_hex public public_key_size pub_bytes pub_size,
      (n, ap (λ x. new_node a x password) private_printed ∙ setup, key, kept),
    )
