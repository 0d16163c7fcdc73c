-- ===== src/Settings/Precedence.antt =====
-- Which source of a setting wins (cmd/yggss/main.go).
use yggss.Base.{
  ◌≡◌, refl, true, false, Option, none, some, List, [], Text, codes, Option-cases, Bool-cases, inl,
  inr, subst, sym, ap, ◌∙◌, ◌⊎◌, if◌then◌else◌, arith,
}
use yggss.Settings.Strings.{join, is_empty}
use yggss.Settings.Options.{Environ, Env, detect_sip003, local_addr, remote_addr, or_empty, find}
use yggss.Settings.Config.{
  Config, Vars, is_flag_set, has_some, apply_config, unless_set, trim_config,
}
use yggss.Settings.Environment.{apply_env}
use yggss.Settings.Start.{config_path, settle, with_env, failover_wanted, split_peers}

-- The flags alone, or with a file that was read.
unfoldable pub FromFile : (Text → Option Config) → List Text → Vars → Vars → Type 0
FromFile load flags v u =
    (u ≡ v)
    ⊎ ((path : Text) × (c : Config) × (load path ≡ some c)
        × (u ≡ apply_config flags (trim_config c) v))

pub settle-source :
    (load : Text → Option Config) (flags : List Text) (flag : Text) (environ : Environ) (v w : Vars)
    → settle load flags flag environ v ≡ some w
    → (u : Vars) × FromFile load flags v u × (w ≡ with_env environ u)
unfolding settle FromFile
settle-source load flags flag environ v w done =
    elim (Bool-cases (is_empty (config_path flag environ))) [
      | inl no_path ↦ (v, inl refl, ground arith)
      | inr path ↦ elim (Option-cases (load (config_path flag environ))) [
        | inl bad ↦ let absurd : ⊥ = ground arith in elim absurd [ ]
        | inr (c, read) ↦ (
          apply_config flags (trim_config c) v,
          inr (config_path flag environ, c, read, refl),
          ground arith,
        )
      ]
    ]

-- A plugin run listens and forwards at the addresses of its environment, whatever the flags and the
-- file say: a server listens at the remote address and forwards to the local one, a client the other
-- way round.
settle-addresses :
    (load : Text → Option Config) (flags : List Text) (flag : Text) (environ : Environ) (env : Env)
    (v w : Vars)
    → detect_sip003 environ ≡ some env
    → settle load flags flag environ v ≡ some w
    → (w.bind_addr ≡ (if w.is_server then remote_addr env else local_addr env))
      × (w.dst_addr ≡ (if w.is_server then local_addr env else remote_addr env))
unfolding with_env apply_env
settle-addresses load flags flag environ env v w plugin done =
    let (u, from, same) = settle-source load flags flag environ v w done in
    let sat : w ≡ apply_env env u = ground arith in
    subst
      (λ w'.
        (w'.bind_addr ≡ (if w'.is_server then remote_addr env else local_addr env))
        × (w'.dst_addr ≡ (if w'.is_server then local_addr env else remote_addr env)))
      (sym sat) (refl, refl)

-- A file with a list `client_keys` replaces the whitelist key that the flag `-clientkey` gives, and
-- the key `client_key` of the file with it.
apply_config-client_keys :
    (flags : List Text) (c : Config) (v : Vars)
    → is_flag_set flags (codes "clientkey") ≡ true
    → is_flag_set flags (codes "clientkeys") ≡ false
    → has_some c.client_keys ≡ true
    → (apply_config flags c v).client_key_hex ≡ join 44 c.client_keys
unfolding apply_config unless_set
apply_config-client_keys flags c v given no_such_flag keys = ground arith

failover_unset :
    (flags : List Text) (c : Config) (v : Vars)
    → v.failover_set ≡ false
    → c.failover ≡ none
    → (apply_config flags (trim_config c) v).failover_set ≡ false
unfolding apply_config unless_set trim_config
failover_unset flags c v unset absent = ground arith

failover_unset_env :
    (e : Env) (v : Vars)
    → v.failover_set ≡ false
    → or_empty (find (codes "failover") e.options) ≡ []
    → (apply_env e v).failover_set ≡ false
unfolding apply_env
failover_unset_env e v unset absent = ground arith

failover_by_peers :
    (v : Vars) → v.failover_set ≡ false → failover_wanted v ≡ has_some (split_peers v.peer_list)
unfolding failover_wanted
failover_by_peers v unset = ground arith

env_unset :
    (environ : Environ) (u : Vars)
    → u.failover_set ≡ false
    → ((e : Env)
        → detect_sip003 environ ≡ some e
        → or_empty (find (codes "failover") e.options) ≡ [])
    → (with_env environ u).failover_set ≡ false
unfolding with_env
env_unset environ u unset in_env = elim (Option-cases (detect_sip003 environ)) [
  | inl alone ↦ ground arith
  | inr (e, plugin) ↦ let off = failover_unset_env e u unset (in_env e plugin) in ground arith
]

file_unset :
    (load : Text → Option Config) (flags : List Text) (v u : Vars)
    → v.failover_set ≡ false
    → ((path : Text) (c : Config) → load path ≡ some c → c.failover ≡ none)
    → FromFile load flags v u
    → u.failover_set ≡ false
unfolding FromFile
file_unset load flags v u unset in_file (inl same) = ground arith
file_unset load flags v u unset in_file (inr (path, c, read, same)) =
    let off = failover_unset flags c v unset (in_file path c read) in ground arith

-- The flag `-failover` alone decides nothing. In a run whose file and environment leave failover
-- unset, the monitor is asked for exactly when there are peers, also with `-failover=false`;
-- `failover_set` is false when `main` starts.
failover_wanted-flag :
    (load : Text → Option Config) (flags : List Text) (flag : Text) (environ : Environ) (v w : Vars)
    → v.failover_set ≡ false
    → ((path : Text) (c : Config) → load path ≡ some c → c.failover ≡ none)
    → ((e : Env)
        → detect_sip003 environ ≡ some e
        → or_empty (find (codes "failover") e.options) ≡ [])
    → settle load flags flag environ v ≡ some w
    → failover_wanted w ≡ has_some (split_peers w.peer_list)
failover_wanted-flag load flags flag environ v w unset in_file in_env done =
    let (u, from, same) = settle-source load flags flag environ v w done in
    let off = env_unset environ u (file_unset load flags v u unset in_file from) in_env in
    failover_by_peers w (ap (λ t. t.failover_set) same ∙ off)
