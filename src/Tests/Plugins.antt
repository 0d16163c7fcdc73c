-- ===== src/Tests/Plugins.antt =====
-- The options of a plugin run (internal/yggss/sip003.go) and the search for a configuration file
-- (internal/yggss/config.go).
use yggss.Base.{◌≡◌, refl, [], ◌∷◌, map, codes, text_eq}
use yggss.Settings.Strings.{
  join, split, trim_space, trim_left, trim_right, cut, to_lower, contains, has_suffix,
}
use yggss.Settings.Options.{
  find, parse_plugin_options, config_path_from_options, find_config_path, Options,
}
use yggss.Settings.RoundTrip.{print_option, onto, AllOptions, parse_plugin_options-print}

two_options :
    parse_plugin_options (codes "s; Key = ab;;key=cd")
    ≡ (codes "key", codes "cd") ∷ (codes "key", codes "ab") ∷ (codes "s", []) ∷ []
unfolding parse_plugin_options split trim_space trim_left trim_right cut to_lower
two_options = refl

path_alone : config_path_from_options (codes " /etc/c.JSON ") ≡ codes "/etc/c.JSON"
unfolding config_path_from_options split trim_space trim_left trim_right contains has_suffix
    to_lower text_eq
path_alone = refl

path_short : config_path_from_options (codes "s;c=/etc/c.json") ≡ codes "/etc/c.json"
unfolding config_path_from_options split trim_space trim_left trim_right cut to_lower contains
    has_suffix find text_eq
path_short = refl

flag_path : find_config_path (codes "-s" ∷ codes "-c" ∷ codes "x" ∷ []) ≡ codes "x"
unfolding find_config_path text_eq
flag_path = refl

abbrev written : Options
written = (codes "key", codes "a b=c") ∷ (codes "t", []) ∷ []

are_options : AllOptions written
unfolding AllOptions contains trim_left trim_right
are_options = (
  record { key = refl; not_empty = refl; one_part = refl; no_left = refl; no_right = refl },
  (record { key = refl; not_empty = refl; one_part = refl; no_left = refl; no_right = refl }, tt),
)

parse_plugin_options-print_example :
    parse_plugin_options (join 59 (map print_option written)) ≡ onto written []
parse_plugin_options-print_example = parse_plugin_options-print written are_options
