-- ===== src/Settings/CommandLine.antt =====
-- The flags of cmd/yggss/main.go and what `main` does with them as a whole.
use yggss.Base.{
  ◌≡◌, refl, Bool, true, false, Option, some, List, [], Text, codes, ℤ, pos, arith, ap, ◌∙◌, if_yes,
  if_no, if◌then◌else◌, Option-cases, Bool-cases, inl, inr, subst, sym,
}
use yggss.Failover.{default_failover_latency_ms, default_failover_check_sec}
use yggss.Settings.Options.{Environ, Env, detect_sip003}
use yggss.Settings.Config.{
  Config, Vars, positive, not_negative, apply_config, trim_config, unless_set,
}
use yggss.Settings.Environment.{apply_env, number_or, atoi}
use yggss.Settings.Start.{Answers, Outcome, main, settle, with_env}
use yggss.Settings.Precedence.{FromFile, settle-source}

-- What `fs.Parse` fills. It and `fs.Visit` are library code: their results are arguments.
pub record Flags : Type 0 where
  pub vars : Vars
  pub config_path : Text
  pub gen_key : Bool
  pub show_version : Bool

-- The variables, with the defaults of their flags.
abbrev pub default_flags : Flags
default_flags = record {
  vars = record {
    bind_addr = [];
    dst_addr = [];
    is_server = false;
    key_hex = [];
    server_key_hex = [];
    client_key_hex = [];
    peer_list = [];
    password = [];
    scheme = codes "tls";
    mode = codes "mesh";
    sni = [];
    direct_dial_sec = pos 5;
    direct_retry_sec = pos 10;
    timeout_sec = pos 30;
    log_interval_sec = pos 30;
    failover_flag = true;
    failover_set = false;
    failover_latency_ms = pos default_failover_latency_ms;
    failover_check_sec = pos default_failover_check_sec;
  };
  config_path = [];
  gen_key = false;
  show_version = false;
}

pub data Command : Type 0 where
  print_version print_key : Command
  proceed : Outcome → Command

-- `main` after `fs.Parse`; `names` are the flags that `fs.Visit` goes through.
unfoldable pub command :
    (Text → Option Config) → (Text → Text) → Answers → List Text → Environ → Flags → Command
unfolding main
command load query_escape a names environ f =
    if f.show_version
    then print_version
    else if f.gen_key
    then print_key
    else proceed (main load query_escape a names f.config_path environ f.vars)

-- The numbers of the settings that are durations or limits are positive, and the interval of the
-- status log, where 0 turns it off, is not negative.
pub record IsTimed (v : Vars) : Type 0 where
  dial : positive v.direct_dial_sec ≡ true
  retry : positive v.direct_retry_sec ≡ true
  timeout : positive v.timeout_sec ≡ true
  latency : positive v.failover_latency_ms ≡ true
  check : positive v.failover_check_sec ≡ true
  log_interval : not_negative v.log_interval_sec ≡ true

pub default_flags-IsTimed : IsTimed default_flags.vars
default_flags-IsTimed = record {
  dial = refl;
  retry = refl;
  timeout = refl;
  latency = refl;
  check = refl;
  log_interval = refl;
}

taken_if_good :
    (good : ℤ → Bool) (value current : ℤ)
    → good current ≡ true
    → good (if good value then value else current) ≡ true
taken_if_good good value current h = elim (Bool-cases (good value)) [
  | inl yes_good ↦ ap good (if_yes (good value) value current yes_good) ∙ yes_good
  | inr bad ↦ ap good (if_no (good value) value current bad) ∙ h
]

number_read :
    (good : ℤ → Bool) (value : Text) (current n : ℤ)
    → atoi value ≡ some n
    → number_or good value current ≡ (if good n then n else current)
unfolding number_or
number_read good value current n read = ground (arith, read)

number_or-good :
    (good : ℤ → Bool) (value : Text) (current : ℤ)
    → good current ≡ true
    → good (number_or good value current) ≡ true
unfolding number_or
number_or-good good value current h = elim (Option-cases (atoi value)) [
  | inl unread ↦ ground (arith, h)
  | inr (n, read) ↦ ap good (number_read good value current n read) ∙ taken_if_good good n current h
]

unless_set-good :
    (good : ℤ → Bool) (flag : Bool) (value current : ℤ)
    → good current ≡ true
    → good (unless_set flag (good value) value current) ≡ true
unfolding unless_set
unless_set-good good true value current h = h
unless_set-good good false value current h = taken_if_good good value current h

apply_config-IsTimed :
    (flags : List Text) (c : Config) (v : Vars) → IsTimed v → IsTimed (apply_config flags c v)
unfolding apply_config
apply_config-IsTimed flags c v h = record {
  dial = unless_set-good positive _ _ _ h.dial;
  retry = unless_set-good positive _ _ _ h.retry;
  timeout = unless_set-good positive _ _ _ h.timeout;
  latency = unless_set-good positive _ _ _ h.latency;
  check = unless_set-good positive _ _ _ h.check;
  log_interval = unless_set-good not_negative _ _ _ h.log_interval;
}

apply_env-IsTimed : (e : Env) (v : Vars) → IsTimed v → IsTimed (apply_env e v)
unfolding apply_env
apply_env-IsTimed e v h = record {
  dial = number_or-good positive _ _ h.dial;
  retry = number_or-good positive _ _ h.retry;
  timeout = number_or-good positive _ _ h.timeout;
  latency = number_or-good positive _ _ h.latency;
  check = number_or-good positive _ _ h.check;
  log_interval = number_or-good not_negative _ _ h.log_interval;
}

-- Whatever the file and the SIP003 options say, a run whose flags are in order is: the timeouts, the
-- retry period and the limits of the failover monitor stay positive, and the log interval stays not
-- negative.
pub settle-IsTimed :
    (load : Text → Option Config) (names : List Text) (flag : Text) (environ : Environ) (v w : Vars)
    → IsTimed v
    → settle load names flag environ v ≡ some w
    → IsTimed w
unfolding with_env FromFile
settle-IsTimed load names flag environ v w h done =
    let (u, from, same) = settle-source load names flag environ v w done in
    let timed : IsTimed u = elim from [
      | inl e ↦ subst IsTimed (sym e) h
      | inr (path, c, read, e) ↦
          subst IsTimed (sym e) (apply_config-IsTimed names (trim_config c) v h)
    ] in
    elim (Option-cases (detect_sip003 environ)) [
      | inl out ↦ let e : w ≡ u = ground arith in subst IsTimed (sym e) timed
      | inr (env, plugin) ↦
          let e : w ≡ apply_env env u = ground arith in
          subst IsTimed (sym e) (apply_env-IsTimed env u timed)
    ]
