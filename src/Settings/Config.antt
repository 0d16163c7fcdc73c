-- ===== src/Settings/Config.antt =====
-- The configuration file (internal/yggss/config.go) and how cmd/yggss/main.go applies it. Reading
-- the JSON is library code: its result is an argument. An absent field is the zero value.
use yggss.Base.{
  zero, suc, Bool, true, false, not, ◌&&◌, ◌||◌, Option, none, some, List, [], ◌∷◌, map, Text,
  codes, text_eq, if◌then◌else◌, ℤ, pos, negsuc,
}
use yggss.Settings.Strings.{trim_space, join, is_empty}

-- `pluginConfig`.
pub record Config : Type 0 where
  pub server : Bool
  pub bind : Text
  pub destination : Text
  pub key : Text
  pub server_key : Text
  pub client_key : Text
  pub client_keys : List Text
  pub peers : List Text
  pub password : Text
  pub scheme : Text
  pub mode : Text
  pub sni : Text
  pub direct_dial_timeout : ℤ
  pub direct_retry : ℤ
  pub timeout : ℤ
  pub log_interval : ℤ
  pub failover : Option Bool
  pub failover_latency : ℤ
  pub failover_check : ℤ

-- `loadConfigFile` after the file is read and parsed.
unfoldable pub trim_config : Config → Config
trim_config c = record c {
  key = trim_space c.key;
  server_key = trim_space c.server_key;
  client_key = trim_space c.client_key;
  client_keys = map trim_space c.client_keys;
  scheme = trim_space c.scheme;
}

-- The variables of `main`.
pub record Vars : Type 0 where
  pub bind_addr : Text
  pub dst_addr : Text
  pub is_server : Bool
  pub key_hex : Text
  pub server_key_hex : Text
  pub client_key_hex : Text
  pub peer_list : Text
  pub password : Text
  pub scheme : Text
  pub mode : Text
  pub sni : Text
  pub direct_dial_sec : ℤ
  pub direct_retry_sec : ℤ
  pub timeout_sec : ℤ
  pub log_interval_sec : ℤ
  pub failover_flag : Bool
  pub failover_set : Bool
  pub failover_latency_ms : ℤ
  pub failover_check_sec : ℤ

-- `setFlags[name]`, for the names of the flags on the command line.
unfoldable pub is_flag_set : List Text → Text → Bool
is_flag_set [] name = false
is_flag_set (f ∷ flags) name = text_eq f name || is_flag_set flags name

abbrev pub positive : ℤ → Bool
positive (pos zero) = false
positive (pos (suc n)) = true
positive (negsuc n) = false

abbrev pub not_negative : ℤ → Bool
not_negative (pos n) = true
not_negative (negsuc n) = false

abbrev pub has_some : List Text → Bool
has_some [] = false
has_some (x ∷ xs) = true

-- A pointer that is not nil, and the value behind it.
abbrev is_given : Option Bool → Bool
is_given none = false
is_given (some b) = true

abbrev given_or : Bool → Option Bool → Bool
given_or b none = b
given_or b (some v) = v

-- The value of the file, if the flag is not given and the file has one.
unfoldable pub unless_set {ℓ} : {A : Type ℓ} → Bool → Bool → A → A → A
unless_set flag_set has value current = if not flag_set && has then value else current

unfoldable pub apply_config : List Text → Config → Vars → Vars
unfolding unless_set
apply_config flags c s =
    let text : Text → Text → Text → Text = λ name value current.
      unless_set (is_flag_set flags name) (not (is_empty value)) value current in
    let number : Text → ℤ → ℤ → ℤ =
      λ name value current. unless_set (is_flag_set flags name) (positive value) value current in
    let one_key = text (codes "clientkey") c.client_key s.client_key_hex in
    record {
      is_server = unless_set (is_flag_set flags (codes "s")) c.server true s.is_server;
      bind_addr = text (codes "b") c.bind s.bind_addr;
      dst_addr = text (codes "d") c.destination s.dst_addr;
      key_hex = text (codes "key") c.key s.key_hex;
      server_key_hex = text (codes "serverkey") c.server_key s.server_key_hex;
      client_key_hex =
          unless_set (is_flag_set flags (codes "clientkeys")) (has_some c.client_keys)
            (join 44 c.client_keys) one_key;
      password = text (codes "password") c.password s.password;
      scheme = text (codes "scheme") c.scheme s.scheme;
      mode = text (codes "mode") c.mode s.mode;
      sni = text (codes "sni") c.sni s.sni;
      direct_dial_sec = number (codes "directdialtimeout") c.direct_dial_timeout s.direct_dial_sec;
      direct_retry_sec = number (codes "directretry") c.direct_retry s.direct_retry_sec;
      timeout_sec = number (codes "t") c.timeout s.timeout_sec;
      log_interval_sec =
          unless_set (is_flag_set flags (codes "loginterval")) (not_negative c.log_interval)
            c.log_interval s.log_interval_sec;
      failover_flag =
          unless_set (is_flag_set flags (codes "failover")) (is_given c.failover)
            (given_or s.failover_flag c.failover) s.failover_flag;
      failover_set =
          unless_set (is_flag_set flags (codes "failover")) (is_given c.failover) true
            s.failover_set;
      failover_latency_ms =
          number (codes "failoverlatency") c.failover_latency s.failover_latency_ms;
      failover_check_sec = number (codes "failovercheck") c.failover_check s.failover_check_sec;
      peer_list =
          unless_set (is_flag_set flags (codes "peers")) (has_some c.peers) (join 44 c.peers)
            s.peer_list;
    }
