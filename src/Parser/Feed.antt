-- ===== src/Parser/Feed.antt =====
-- src/core/protocol.js: `feed`, with the buffer of CommandParser.
use redis_clone_js.Prelude.{ℕ, zero, suc, ◌-◌, List, [], ◌∷◌, ◌++◌, length, drop}
use redis_clone_js.Prelude.Text.{Text}
use redis_clone_js.Prelude.Int.{ℤ, pos, negsuc}
use redis_clone_js.Parser.Messages.{Node}
use redis_clone_js.Parser.{Bytes, Parsed, wait, parsed, odd, parse_next}

-- `fed` has the messages and the buffer that is left; `unfinished`: the loop still runs when the
-- fuel is gone.
pub data Fed : Type 0 where
  fed : List Node → Bytes → Fed
  unfinished : Fed
  astray : Fed

-- buffer.slice(n)
unfoldable pub slice_from : ℤ → Bytes → Bytes
slice_from (pos n) buffer = drop n buffer
slice_from (negsuc n) buffer = drop (length buffer - suc n) buffer

abbrev pub cons_message : Node → Fed → Fed
cons_message node (fed nodes buffer) = fed (node ∷ nodes) buffer
cons_message node unfinished = unfinished
cons_message node astray = astray

-- What the loop does with a result of the parser.
abbrev pub after_parse : (Bytes → Fed) → Bytes → Parsed → Fed
after_parse go_on buffer wait = fed [] buffer
after_parse go_on buffer (parsed node k) = cons_message node (go_on (drop k buffer))
after_parse go_on buffer (odd node k) = cons_message node (go_on (slice_from k buffer))
after_parse go_on buffer Parsed.astray = astray

-- The loop of `feed`. The fuel is the number of messages allowed.
unfoldable pub feed_loop : (Bytes → Text) → ℕ → Bytes → Fed
unfolding slice_from parse_next
feed_loop decode zero buffer = unfinished
feed_loop decode (suc fuel) buffer =
    after_parse (feed_loop decode fuel) buffer (parse_next decode (suc (length buffer)) 0 buffer)

-- `feed` of a chunk: one message takes a byte at least.
unfoldable pub feed : (Bytes → Text) → Bytes → Bytes → Fed
unfolding feed_loop
feed decode buffer chunk = feed_loop decode (suc (length (buffer ++ chunk))) (buffer ++ chunk)
