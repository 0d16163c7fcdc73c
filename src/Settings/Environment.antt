-- ===== src/Settings/Environment.antt =====
-- How cmd/yggss/main.go applies the SIP003 environment, after the flags and the file.
use yggss.Base.{
  ℕ, zero, suc, ◌+◌, ◌-◌, ◌*◌, ◌^◌, Bool, true, false, not, ◌&&◌, ◌||◌, Option, none, some, [], ◌∷◌,
  Text, codes, text_eq, ltb, leb, if◌then◌else◌, ℤ, pos, negsuc,
}
use yggss.Settings.Strings.{is_empty}
use yggss.Settings.Options.{Env, find, or_empty, local_addr, remote_addr}
use yggss.Settings.Config.{Vars, positive, not_negative}

abbrev digits : ℕ → Text → Option ℕ
digits n [] = some n
digits n (c ∷ s) =
    let rest = digits (n * 10 + (c - 48)) s in if leb 48 c && leb c 57 then rest else none

-- A sign in front of the digits, within the range of an int64.
abbrev signed : Bool → Option ℕ → Option ℤ
signed minus none = none
signed false (some n) = if ltb n (2 ^ 63) then some (pos n) else none
signed true (some zero) = some (pos 0)
signed true (some (suc n)) = if ltb n (2 ^ 63) then some (negsuc n) else none

abbrev at_least_one : (Text → Option ℕ) → Text → Option ℕ
at_least_one read [] = none
at_least_one read (c ∷ s) = read (c ∷ s)

-- `strconv.Atoi`.
unfoldable pub atoi : Text → Option ℤ
atoi [] = none
atoi (c ∷ s) =
    let unsigned = signed false (at_least_one (digits 0) (c ∷ s)) in
    if text_eq (c ∷ []) (codes "-")
    then signed true (at_least_one (digits 0) s)
    else if text_eq (c ∷ []) (codes "+")
    then signed false (at_least_one (digits 0) s)
    else unsigned

-- `if v := get(key); v != ""`.
unfoldable pub option_or : Text → Text → Text
option_or value current = if not (is_empty value) then value else current

-- The number of an option, where it is one that the code takes.
unfoldable pub number_or : (ℤ → Bool) → Text → ℤ → ℤ
unfolding atoi
number_or good value current = elim (atoi value) [
  | none ↦ current
  | some n ↦ if good n then n else current
]

unfoldable pub mode_or : Text → Text → Text
mode_or value current =
    if text_eq value (codes "mesh") || text_eq value (codes "direct") then value else current

abbrev off_words : Text → Bool
off_words v =
    text_eq v (codes "0")
    || (text_eq v (codes "false") || (text_eq v (codes "off") || text_eq v (codes "no")))

abbrev has_key : Option Text → Bool
has_key none = false
has_key (some v) = true

unfoldable pub apply_env : Env → Vars → Vars
unfolding option_or number_or mode_or
apply_env e v =
    let get : Text → Text = λ key. or_empty (find key e.options) in
    let server = v.is_server || has_key (find (codes "s") e.options) in
    record v {
      key_hex = option_or (get (codes "key")) v.key_hex;
      server_key_hex = option_or (get (codes "serverkey")) v.server_key_hex;
      client_key_hex = option_or (get (codes "clientkey")) v.client_key_hex;
      peer_list = option_or (get (codes "peers")) v.peer_list;
      password = option_or (get (codes "password")) v.password;
      scheme = option_or (get (codes "scheme")) v.scheme;
      timeout_sec = number_or positive (get (codes "t")) v.timeout_sec;
      log_interval_sec = number_or not_negative (get (codes "loginterval")) v.log_interval_sec;
      mode = mode_or (get (codes "mode")) v.mode;
      sni = option_or (get (codes "sni")) v.sni;
      direct_dial_sec = number_or positive (get (codes "directdialtimeout")) v.direct_dial_sec;
      direct_retry_sec = number_or positive (get (codes "directretry")) v.direct_retry_sec;
      failover_flag =
          if is_empty (get (codes "failover"))
          then v.failover_flag
          else not (off_words (get (codes "failover")));
      failover_set = not (is_empty (get (codes "failover"))) || v.failover_set;
      failover_latency_ms =
          number_or positive (get (codes "failover_latency")) v.failover_latency_ms;
      failover_check_sec = number_or positive (get (codes "failover_check")) v.failover_check_sec;
      is_server = server;
      bind_addr = if server then remote_addr e else local_addr e;
      dst_addr = if server then local_addr e else remote_addr e;
    }
