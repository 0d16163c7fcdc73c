-- ===== src/Settings/Options.antt =====
-- The SIP003 environment of a plugin (internal/yggss/sip003.go), and the search for a configuration
-- file (internal/yggss/config.go). The map of options is an association list, newest first.
use yggss.Base.{
  not, ◌&&◌, Option, none, some, List, [], ◌∷◌, ◌++◌, Text, codes, text_eq, drop, if◌then◌else◌,
}
use yggss.Settings.Strings.{
  trim_space, to_lower, split, cut, contains, has_prefix, has_suffix, is_empty,
}

abbrev pub Options : Type 0
Options = List (Text × Text)

-- Reading a key of the map, with `ok`.
unfoldable pub find : Text → Options → Option Text
find key [] = none
find key ((k, v) ∷ opts) = let rest = find key opts in if text_eq k key then some v else rest

abbrev pub or_empty : Option Text → Text
or_empty none = []
or_empty (some v) = v

-- One turn of the loop of `parsePluginOptions`.
unfoldable pub add_option : Text → Options → Options
add_option part opts =
    let pair = trim_space part in
    let (k, v) = cut 61 pair in
    if is_empty pair then opts else (to_lower (trim_space k), trim_space v) ∷ opts

unfoldable pub add_options : List Text → Options → Options
unfolding add_option
add_options [] opts = opts
add_options (part ∷ parts) opts = add_options parts (add_option part opts)

unfoldable pub parse_plugin_options : Text → Options
unfolding add_options
parse_plugin_options s = add_options (split 59 s) []

unfoldable pub config_path_from_options : Text → Text
unfolding parse_plugin_options
config_path_from_options raw =
    let s = trim_space raw in
    let opts = parse_plugin_options s in
    let long = or_empty (find (codes "config") opts) in
    if is_empty s
    then []
    else if not (contains 61 s) && has_suffix (to_lower s) (codes ".json")
    then s
    else if not (is_empty long)
    then long
    else or_empty (find (codes "c") opts)

-- The variables of the process that the plugin reads.
pub record Environ : Type 0 where
  pub local_host : Option Text
  pub local_port : Option Text
  pub remote_host : Option Text
  pub remote_port : Option Text
  pub plugin_options : Option Text

pub record Env : Type 0 where
  pub local_host : Text
  pub local_port : Text
  pub remote_host : Text
  pub remote_port : Text
  pub options : Options

-- An environment without one of the four addresses is no plugin run.
abbrev env_of : (lh lp rh rp : Option Text) → Text → Option Env
env_of (some lh) (some lp) (some rh) (some rp) raw = some (record {
  local_host = lh;
  local_port = lp;
  remote_host = rh;
  remote_port = rp;
  options = parse_plugin_options raw;
})
env_of _ _ _ _ raw = none

-- `detectSIP003`.
unfoldable pub detect_sip003 : Environ → Option Env
detect_sip003 e =
    env_of e.local_host e.local_port e.remote_host e.remote_port (or_empty e.plugin_options)

-- `net.JoinHostPort`: a host with a colon is put in brackets.
unfoldable pub join_host_port : Text → Text → Text
join_host_port host port =
    if contains 58 host then (91 ∷ host) ++ (93 ∷ 58 ∷ port) else host ++ (58 ∷ port)

unfoldable pub local_addr : Env → Text
unfolding join_host_port
local_addr e = join_host_port e.local_host e.local_port

unfoldable pub remote_addr : Env → Text
unfolding join_host_port
remote_addr e = join_host_port e.remote_host e.remote_port

-- `findConfigPath`: the argument after `-c`, or the rest of an argument `-c=`.
unfoldable pub find_config_path : List Text → Text
find_config_path [] = []
find_config_path (a ∷ []) = if has_prefix (codes "-c=") a then drop 3 a else []
find_config_path (a ∷ b ∷ args) =
    let rest = find_config_path (b ∷ args) in
    if text_eq a (codes "-c") then b else if has_prefix (codes "-c=") a then drop 3 a else rest
