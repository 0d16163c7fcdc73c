-- ===== src/Settings/Sources.antt =====
-- The order of the sources of a setting (cmd/yggss/main.go): environment, flag, file.
use yggss.Base.{
  ◌≡◌, Bool, false, not, Option, some, List, [], ◌∷◌, Text, codes, ap, ◌∙◌, if◌then◌else◌, arith,
}
use yggss.Settings.Strings.{is_empty, trim_space}
use yggss.Settings.Options.{Environ, Env, detect_sip003, or_empty, find}
use yggss.Settings.Config.{Config, Vars, is_flag_set, apply_config, unless_set, trim_config}
use yggss.Settings.Environment.{apply_env, option_or}
use yggss.Settings.Start.{config_path, settle, with_env}

-- The first text that is not empty.
pub first_text : List Text → Text
first_text [] = []
first_text (s ∷ ss) = let rest = first_text ss in if is_empty s then rest else s

-- The option of the environment, then the flag if it is given, then the file, then the default,
-- which is what the variable holds when the flag is not given.
pub chosen : Env → List Text → (name file variable : Text) → Text
chosen env flags name file variable = first_text (
    or_empty (find name env.options)
    ∷ (if is_flag_set flags name then [] else file)
    ∷ variable
    ∷ [])

one_setting :
    (option file variable : Text) (given : Bool)
    → option_or option (unless_set given (not (is_empty file)) file variable)
      ≡ first_text (option ∷ (if given then [] else file) ∷ variable ∷ [])
unfolding option_or unless_set first_text
one_setting option file variable given = ground arith

-- A plugin run with a file takes each of these settings from the environment if it has one there,
-- else from the flag if that is given, else from the file, and else has the flag's default.
pub settle-chosen :
    (load : Text → Option Config) (flags : List Text) (flag : Text) (environ : Environ) (env : Env)
    (c : Config) (v w : Vars)
    → detect_sip003 environ ≡ some env
    → is_empty (config_path flag environ) ≡ false
    → load (config_path flag environ) ≡ some c
    → settle load flags flag environ v ≡ some w
    → (w.key_hex ≡ chosen env flags (codes "key") (trim_space c.key) v.key_hex)
      × (w.server_key_hex
          ≡ chosen env flags (codes "serverkey") (trim_space c.server_key) v.server_key_hex)
      × (w.password ≡ chosen env flags (codes "password") c.password v.password)
      × (w.scheme ≡ chosen env flags (codes "scheme") (trim_space c.scheme) v.scheme)
      × (w.sni ≡ chosen env flags (codes "sni") c.sni v.sni)
unfolding settle with_env apply_env apply_config trim_config chosen
settle-chosen load flags flag environ env c v w plugin path read done =
    let same : w ≡ apply_env env (apply_config flags (trim_config c) v) = ground arith in
    let choose = λ (name : Text) (file : Text) (variable : Text).
      one_setting (or_empty (find name env.options)) file variable (is_flag_set flags name) in
    (
      ap (λ u. u.key_hex) same ∙ choose (codes "key") (trim_space c.key) v.key_hex,
      ap (λ u. u.server_key_hex) same
          ∙ choose (codes "serverkey") (trim_space c.server_key) v.server_key_hex,
      ap (λ u. u.password) same ∙ choose (codes "password") c.password v.password,
      ap (λ u. u.scheme) same ∙ choose (codes "scheme") (trim_space c.scheme) v.scheme,
      ap (λ u. u.sni) same ∙ choose (codes "sni") c.sni v.sni,
    )
