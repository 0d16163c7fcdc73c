-- ===== src/Tests/Streams.antt =====
-- The bytes of a stream (internal/yggss/tunnel.go).
use yggss.Base.{◌≡◌, refl, false, [], codes, text_eq}
use yggss.Stream.Peek.{no_upstream, handle_stream}

upstream_down : handle_stream false (codes "GET") [] ≡ no_upstream
unfolding handle_stream text_eq
upstream_down = refl
