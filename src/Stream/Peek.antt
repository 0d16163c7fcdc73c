-- ===== src/Stream/Peek.antt =====
-- `handleProbeStream`, `streamWithPrefix` and `handleStream` (internal/yggss/tunnel.go). The accept
-- loop of `serveDirectConn` (internal/yggss/direct.go) treats a stream in the same way.
use yggss.Base.{ℕ, zero, suc, Bool, [], ◌∷◌, ◌++◌, length, take, drop, Text, text_eq, if◌then◌else◌}

-- "Y!"
abbrev pub probe_ping : Text
probe_ping = 0x59 ∷ 0x21 ∷ []

-- `handled, consumed`, with what the stream still holds.
pub data Peeked : Type 0 where
  handled : Peeked
  user : Text → Text → Peeked

-- `arrived` are the bytes that come before the read deadline, `later` those that come after it. A
-- short read is no error here: what was read is handed on.
unfoldable pub handle_probe_stream : Text → Text → Peeked
handle_probe_stream arrived later =
    let buf = take (length probe_ping) arrived in
    if text_eq buf probe_ping then handled else user buf (drop (length probe_ping) arrived ++ later)

-- `streamWithPrefix` over `io.MultiReader`: what was consumed, and then the stream.
pub record Source : Type 0 where
  pub prefix : Text
  pub rest : Text

-- `Read` with a buffer of `n` bytes.
unfoldable pub read : ℕ → Source → Text × Source
read n s = elim s.prefix [
  | [] ↦ (take n s.rest, record s { rest = drop n s.rest })
  | b ∷ bs ↦ (take n s.prefix, record s { prefix = drop n s.prefix })
]

-- The bytes of `k` reads, and what is left.
unfoldable pub read_all : ℕ → ℕ → Source → Text × Source
read_all zero n s = ([], s)
read_all (suc k) n s =
    let (chunk, s') = read n s in let (more, s'') = read_all k n s' in (chunk ++ more, s'')

-- How `handleStream` ends up: it answers the probe, it cannot reach the shadowsocks server, or it
-- pipes the source to it.
pub data Served : Type 0 where
  echo : Text → Served
  no_upstream : Served
  piped : Source → Served

unfoldable pub handle_peeked : Bool → Peeked → Served
handle_peeked dial_ok handled = echo probe_ping
handle_peeked dial_ok (user consumed rest) =
    if dial_ok then piped (record { prefix = consumed; rest = rest }) else no_upstream

unfoldable pub handle_stream : Bool → Text → Text → Served
unfolding handle_peeked handle_probe_stream
handle_stream dial_ok arrived later = handle_peeked dial_ok (handle_probe_stream arrived later)
