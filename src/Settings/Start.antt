-- ===== src/Settings/Start.antt =====
-- What cmd/yggss/main.go starts once the settings are known: the server or the client, or the
-- message it exits with. Log lines and signals are left out.
use yggss.Base.{
  Bool, not, ◌&&◌, ◌||◌, Option, none, some, List, [], ◌∷◌, ◌++◌, Text, codes, text_eq,
  if◌then◌else◌, ℤ,
}
use yggss.Node.{public_key_size}
use yggss.Settings.Strings.{is_empty, trim_space, split, contains, contains_text}
use yggss.Settings.Options.{Environ, detect_sip003, config_path_from_options, or_empty}
use yggss.Settings.Keys.{parse_key, NodeAnswers, made, failed, new_node}
use yggss.Settings.Config.{Config, Vars, trim_config, apply_config, has_some}
use yggss.Settings.Environment.{apply_env}

-- `Split` and `TrimSpace`, and the parts that are not empty.
unfoldable pub keep_parts : List Text → List Text
keep_parts [] = []
keep_parts (p ∷ ps) =
    let rest = keep_parts ps in
    let part = trim_space p in if is_empty part then rest else part ∷ rest

unfoldable pub split_peers : Text → List Text
unfolding keep_parts
split_peers s = keep_parts (split 44 s)

-- The loop that fills the whitelist: none if a key does not parse.
unfoldable pub parse_keys : List Text → Option (List Text)
unfolding parse_key
parse_keys [] = some []
parse_keys (k ∷ ks) = elim (parse_key k public_key_size) [
  | none ↦ none
  | some pk ↦ elim (parse_keys ks) [ none ↦ none | some pks ↦ some (pk ∷ pks) ]
]

-- A whitelist without keys is no whitelist.
unfoldable pub whitelist : List Text → Option (List Text)
whitelist [] = none
whitelist (k ∷ ks) = some (k ∷ ks)

unfoldable pub with_scheme : Text → Text → Text
with_scheme scheme addr =
    if contains_text addr (codes "://") then addr else scheme ++ (codes "://" ++ addr)

-- `url.QueryEscape` is an argument.
unfoldable pub peer_uri : (Text → Text) → Vars → Text
unfolding with_scheme
peer_uri query_escape v =
    let uri = with_scheme v.scheme v.dst_addr in
    if not (is_empty v.sni) && not (contains 63 uri)
    then uri ++ (codes "?sni=" ++ query_escape v.sni)
    else uri

pub data Exit : Type 0 where
  bad_config no_listen_address node_failed no_destination listen_failed bad_client_key : Exit
  direct_failed no_server_key no_server_address bad_server_key : Exit

-- The calls of a server start: `Listen`, `StartDirectServer` if any, `NewServer`.
pub record ServerRun : Type 0 where
  pub listen_uri : Text
  pub dst : Text
  pub allowed : Option (List Text)
  pub direct : Bool
  pub log_interval : ℤ

-- The calls of a client start: `AddPeer`, `NewDirectClient` if any, `NewClient`, the failover
-- monitor if it is asked for, with its two numbers.
pub record ClientRun : Type 0 where
  pub uri : Text
  pub server_key : Text
  pub bind : Text
  pub direct : Option (ℤ × ℤ)
  pub failover : Option (ℤ × ℤ)
  pub timeout : ℤ
  pub log_interval : ℤ

pub data Outcome : Type 0 where
  exit : Exit → Outcome
  serve : List Text → ServerRun → Outcome
  connect : List Text → ClientRun → Outcome

-- What the calls into the node answer.
pub record Answers : Type 0 where
  pub node : NodeAnswers
  pub listen_ok : Bool
  pub direct_ok : Bool

-- The condition around `NewFailoverMonitor`.
unfoldable pub failover_wanted : Vars → Bool
unfolding split_peers
failover_wanted v =
    (v.failover_set || has_some (split_peers v.peer_list))
    && (not v.failover_set || v.failover_flag)

abbrev pub is_direct : Vars → Bool
is_direct v = text_eq v.mode (codes "direct")

unfoldable pub start_server : Answers → Vars → Outcome
unfolding with_scheme whitelist split_peers
start_server a v =
    let run : Option (List Text) → Outcome = λ keys.
      if is_direct v && not a.direct_ok
      then exit direct_failed
      else serve (split_peers v.peer_list) (record {
        listen_uri = with_scheme v.scheme v.bind_addr;
        dst = v.dst_addr;
        allowed = keys;
        direct = is_direct v;
        log_interval = v.log_interval_sec;
      }) in
    if is_empty v.dst_addr
    then exit no_destination
    else if not a.listen_ok
    then exit listen_failed
    else if is_empty v.client_key_hex
    then run none
    else elim (parse_keys (keep_parts (split 44 v.client_key_hex))) [
      | none ↦ exit bad_client_key
      | some keys ↦ run (whitelist keys)
    ]

unfoldable pub start_client : (Text → Text) → Vars → Outcome
unfolding peer_uri split_peers failover_wanted
start_client query_escape v =
    if is_empty v.server_key_hex
    then exit no_server_key
    else if is_empty v.dst_addr
    then exit no_server_address
    else elim (parse_key v.server_key_hex public_key_size) [
      | none ↦ exit bad_server_key
      | some key ↦ connect (split_peers v.peer_list) (record {
        uri = peer_uri query_escape v;
        server_key = key;
        bind = v.bind_addr;
        direct = if is_direct v then some (v.direct_dial_sec, v.direct_retry_sec) else none;
        failover =
            if failover_wanted v then some (v.failover_latency_ms, v.failover_check_sec) else none;
        timeout = v.timeout_sec;
        log_interval = v.log_interval_sec;
      })
    ]

unfoldable pub start : (Text → Text) → Answers → Vars → Outcome
unfolding start_server start_client new_node
start query_escape a v =
    if is_empty v.bind_addr
    then exit no_listen_address
    else elim (new_node a.node v.key_hex v.password) [
      | failed e ↦ exit node_failed
      | made n ↦ if v.is_server then start_server a v else start_client query_escape v
    ]

-- The path of the file: the flag `-c`, or the options of a plugin run.
unfoldable pub config_path : Text → Environ → Text
unfolding detect_sip003
config_path flag environ = if not (is_empty flag) then flag else elim (detect_sip003 environ) [
  | none ↦ []
  | some env ↦ config_path_from_options (or_empty environ.plugin_options)
]

unfoldable pub with_env : Environ → Vars → Vars
unfolding apply_env
with_env environ v = elim (detect_sip003 environ) [ none ↦ v | some env ↦ apply_env env v ]

-- `main` after flag parsing: `flags` are the names that were given, `v` the variables that the
-- flags have set, and `load` what is read at a path, `LoadConfig` up to its trimming.
unfoldable pub settle : (Text → Option Config) → List Text → Text → Environ → Vars → Option Vars
unfolding config_path trim_config apply_config with_env
settle load flags config_flag environ v =
    let path = config_path config_flag environ in
    if is_empty path then some (with_env environ v) else elim (load path) [
      | none ↦ none
      | some c ↦ some (with_env environ (apply_config flags (trim_config c) v))
    ]

-- The whole of `main` after flag parsing.
unfoldable pub main :
    (Text → Option Config) → (Text → Text) → Answers → List Text → Text → Environ → Vars → Outcome
unfolding settle start
main load query_escape a flags config_flag environ v =
    elim (settle load flags config_flag environ v) [
      | none ↦ exit bad_config
      | some w ↦ start query_escape a w
    ]
