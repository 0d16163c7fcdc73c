-- ===== src/Tests/Keys.antt =====
-- The key pair of `-genkey` (cmd/yggss/main.go) and its way back.
use yggss.Base.{◌≡◌, refl, false, some, [], Text, codes}
use yggss.Node.{public_key_size}
use yggss.Settings.Keys.{Node, made, new_node, parse_key}
use yggss.Settings.KeyPrint.{Printed, encode_hex, gen_and_print_key, gen_and_print_key-read}
use yggss.Tests.Starts.{repeat, all_ok}

abbrev public_key : Text
public_key = repeat 32 171

abbrev secret_key : Text
secret_key = repeat 64 7

abbrev address_of : Text → Text
address_of key = codes "200::1"

abbrev output : Printed
output = record {
  private_hex = encode_hex secret_key;
  public_hex = encode_hex public_key;
  address = codes "200::1";
}

prints_output : gen_and_print_key address_of (some (public_key, secret_key)) ≡ some output
unfolding gen_and_print_key
prints_output = refl

gen_and_print_key-read_example :
    (parse_key output.public_hex public_key_size ≡ some public_key)
    × ((n : Node) × (new_node all_ok.node output.private_hex [] ≡ made n)
        × (n.private_key ≡ secret_key)
        × (n.ephemeral ≡ false))
gen_and_print_key-read_example =
    gen_and_print_key-read address_of public_key secret_key [] output all_ok.node prints_output refl
      refl refl refl refl refl
