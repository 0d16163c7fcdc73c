-- ===== src/Tests/Starts.antt =====
-- The settings and the start of the command (cmd/yggss/main.go).
use yggss.Base.{
  ℕ, ◌≡◌, refl, Bool, true, false, Option, none, some, [], ◌∷◌, ◌++◌, Text, codes, text_eq, pos, ap,
  sym, zero, suc,
}
use yggss.Settings.Strings.{
  split, trim_space, trim_left, trim_right, cut, to_lower, contains, has_suffix, contains_text,
  is_empty,
}
use yggss.Settings.Options.{
  Environ, Env, find, detect_sip003, parse_plugin_options, config_path_from_options, or_empty,
}
use yggss.Settings.Config.{trim_config, Config, Vars, is_flag_set, apply_config}
use yggss.Settings.Keys.{new_node, parse_key, decode_hex}
use yggss.Settings.Start.{
  config_path, main, start, exit, bad_config, Answers, settle, start_server, serve, keep_parts,
  parse_keys, with_env, ServerRun,
}
use yggss.Settings.Sources.{chosen, settle-chosen}

abbrev pub repeat : ℕ → ℕ → Text
repeat zero c = []
repeat (suc n) c = c ∷ repeat n c

abbrev pub vars : Vars
vars = record {
  bind_addr = codes ":4440";
  dst_addr = codes "h:1";
  is_server = true;
  key_hex = [];
  server_key_hex = [];
  client_key_hex = codes "aa";
  peer_list = codes "tls://p:1,";
  password = [];
  scheme = codes "tls";
  mode = codes "mesh";
  sni = [];
  direct_dial_sec = pos 5;
  direct_retry_sec = pos 10;
  timeout_sec = pos 30;
  log_interval_sec = pos 30;
  failover_flag = false;
  failover_set = false;
  failover_latency_ms = pos 1000;
  failover_check_sec = pos 5;
}

abbrev pub config : Config
config = record {
  server = true;
  bind = [];
  destination = [];
  key = [];
  server_key = [];
  client_key = codes "bb";
  client_keys = codes "cc" ∷ codes "dd" ∷ [];
  peers = [];
  password = codes "pw";
  scheme = codes " ws";
  mode = [];
  sni = [];
  direct_dial_timeout = pos 0;
  direct_retry = pos 0;
  timeout = pos 0;
  log_interval = pos 0;
  failover = none;
  failover_latency = pos 0;
  failover_check = pos 0;
}

-- A file without `log_interval` turns the status log off, although the flag's default is 30.
log_off : (apply_config [] config vars).log_interval_sec ≡ pos 0
unfolding apply_config is_flag_set
log_off = refl

given : is_flag_set (codes "clientkey" ∷ []) (codes "clientkey") ≡ true
unfolding is_flag_set text_eq
given = refl

not_given : is_flag_set (codes "clientkey" ∷ []) (codes "clientkeys") ≡ false
unfolding is_flag_set text_eq
not_given = refl

abbrev pub environ : Environ
environ = record {
  local_host = some (codes "127.0.0.1");
  local_port = some (codes "9");
  remote_host = some (codes "0.0.0.0");
  remote_port = some (codes "443");
  plugin_options = some (codes "t=7");
}

-- The environment, as `detect_sip003` returns it.
abbrev env : Env
env = record {
  local_host = codes "127.0.0.1";
  local_port = codes "9";
  remote_host = codes "0.0.0.0";
  remote_port = codes "443";
  options = parse_plugin_options (codes "t=7");
}

plugin : detect_sip003 environ ≡ some env
unfolding detect_sip003
plugin = refl

abbrev pub load : Text → Option Config
load path = some config

abbrev settled : Vars
settled = with_env environ vars

no_file : settle load [] [] environ vars ≡ some settled
unfolding settle detect_sip003 config_path_from_options contains has_suffix find to_lower
    parse_plugin_options split trim_space trim_left trim_right cut text_eq
no_file = refl

no_file_flag : settle load (codes "failover" ∷ []) [] environ vars ≡ some settled
unfolding settle detect_sip003 config_path_from_options contains has_suffix find to_lower
    parse_plugin_options split trim_space trim_left trim_right cut text_eq
no_file_flag = refl

abbrev joined : Vars
joined = with_env environ (apply_config [] (trim_config config) vars)

from_file : settle load [] (codes "x") environ vars ≡ some joined
unfolding settle
from_file = refl

file_path : is_empty (config_path (codes "x") environ) ≡ false
unfolding config_path
file_path = refl

settle-chosen_example :
    (joined.key_hex ≡ chosen env [] (codes "key") (trim_space config.key) vars.key_hex)
    × (joined.server_key_hex
        ≡ chosen env [] (codes "serverkey") (trim_space config.server_key) vars.server_key_hex)
    × (joined.password ≡ chosen env [] (codes "password") config.password vars.password)
    × (joined.scheme ≡ chosen env [] (codes "scheme") (trim_space config.scheme) vars.scheme)
    × (joined.sni ≡ chosen env [] (codes "sni") config.sni vars.sni)
settle-chosen_example =
    settle-chosen load [] (codes "x") environ env config vars joined plugin file_path refl from_file

abbrev failover_option : Option Env → Text
failover_option none = []
failover_option (some e) = or_empty (find (codes "failover") e.options)

no_failover :
    (e : Env) → detect_sip003 environ ≡ some e → or_empty (find (codes "failover") e.options) ≡ []
unfolding detect_sip003 find parse_plugin_options split trim_space trim_left trim_right cut to_lower
    text_eq
no_failover e h = ap failover_option (sym h)

abbrev file_failover : Option Config → Option Bool
file_failover none = none
file_failover (some c) = c.failover

-- One key of 32 bytes, in hex, and parts without a key.
abbrev pub admitting : Vars
admitting = record vars { client_key_hex = codes " ," ++ (repeat 64 97 ++ codes ",") }

abbrev pub run : ServerRun
run = record {
  listen_uri = codes "tls://:4440";
  dst = codes "h:1";
  allowed = some (repeat 32 170 ∷ []);
  direct = false;
  log_interval = pos 30;
}

abbrev pub all_ok : Answers
all_ok = record {
  node = record { generated = some (repeat 64 7); certificate_ok = true; core_ok = true };
  listen_ok = true;
  direct_ok = true;
}

pub started : start_server all_ok admitting ≡ serve (codes "tls://p:1" ∷ []) run
unfolding start_server parse_keys keep_parts parse_key decode_hex split trim_space trim_left
    trim_right text_eq contains_text
started = refl

-- A server by the flags, and a file that cannot be read.
by_flags :
    main
      (λ path. none)
      (λ s. s)
      all_ok
      []
      []
      (record environ { plugin_options = none; local_host = none })
      admitting
    ≡ serve (codes "tls://p:1" ∷ []) run
unfolding main settle start start_server new_node detect_sip003 parse_keys keep_parts parse_key
    decode_hex split trim_space trim_left trim_right text_eq contains_text
by_flags = refl

unreadable : main (λ path. none) (λ s. s) all_ok [] (codes "x") environ admitting ≡ exit bad_config
unfolding main settle
unreadable = refl
