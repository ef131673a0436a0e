-- ===== src/Parser/Logs.antt =====
-- src/core/protocol.js: a row of encoded commands, and bulk lengths far below zero.
use redis_clone_js.Prelude.{
  ℕ, zero, suc, ◌+◌, ◌-◌, ◌*◌, ◌<◌, ◌≡◌, refl, ap, sym, ◌∙◌, subst, true, Option, some, List, [],
  ◌∷◌, ◌++◌, map, arith, length, take, drop, length-append, append-nil,
}
use redis_clone_js.Prelude.Text.{Text}
use redis_clone_js.Prelude.Int.{negsuc, ◌-ℤ◌, sub_ℕ}
use redis_clone_js.Number.{parse_int, show_ℕ, show_ℤ}
use redis_clone_js.Number.Decimal.{parse_int-show_ℤ}
use redis_clone_js.Protocol.{crlf, encode_array_of_bulk_strings}
use redis_clone_js.Parser.Messages.{Node, array, bulk, bulk_nodes}
use redis_clone_js.Parser.{
  Bytes, Parsed, parsed, odd, header, parse_next, bulk_negative, bulk_of_length, parse_bulk_string,
  on_line,
}
use redis_clone_js.Parser.Steady.{parse_next-Carries}
use redis_clone_js.Parser.Encoded.{
  Utf8, command_bytes, encode-command, all_plain_ascii, decode-plain, all_plain_ascii-show_ℕ,
  split_line-plain,
}
use redis_clone_js.Parser.RoundTrip.{all_well_formed, read_command, drop-front}
use redis_clone_js.Parser.Reads.{Reads, stops, goes_on, parse_buffer}
use redis_clone_js.Parser.Feed.{unfinished, feed_loop, after_parse, cons_message, slice_from}

abbrev pub Command : Type 0
Command = List (Option Text)

abbrev pub AllWellFormed : List Command → Type 0
AllWellFormed [] = Unit
AllWellFormed (c ∷ commands) = (all_well_formed c ≡ true) × AllWellFormed commands

-- The payloads of the commands, one behind the other.
unfoldable pub log_bytes : Utf8 → List Command → Bytes
log_bytes u [] = []
log_bytes u (c ∷ commands) = u.encode (encode_array_of_bulk_strings c) ++ log_bytes u commands

-- The node that a command is parsed as.
abbrev pub node_of : Command → Node
node_of c = array (bulk_nodes c)

encode-alone :
    (u : Utf8) (c : Command) → u.encode (encode_array_of_bulk_strings c) ≡ command_bytes u c
encode-alone u c =
    ap u.encode (sym (append-nil (encode_array_of_bulk_strings c)))
    ∙ encode-command u c []
    ∙ ap (command_bytes u c ++◌) u.encode-nil
    ∙ append-nil (command_bytes u c)

parse_command :
    (u : Utf8) (c : Command) (more : Bytes)
    → all_well_formed c ≡ true
    → parse_buffer u.decode (command_bytes u c ++ more)
      ≡ parsed (node_of c) (length (command_bytes u c))
parse_command u c more h =
    let b = command_bytes u c in
    (parse_next-Carries u.decode 2 (suc (length (b ++ more)))
        (unfold command_bytes in omega arith)).grows
      0 b more (node_of c) (length b)
      (ap (parse_next u.decode 2 0) (sym (append-nil b)) ∙ read_command u 0 0 c [] h)

-- The log reads as its commands, with nothing left.
pub log_bytes-Reads :
    (u : Utf8) (commands : List Command)
    → AllWellFormed commands
    → Reads u.decode (log_bytes u commands) (map node_of commands) []
unfolding log_bytes
log_bytes-Reads u [] h = stops [] (unfold parse_next in refl)
log_bytes-Reads u (c ∷ commands) h =
    let b = command_bytes u c in
    let rest = log_bytes u commands in
    subst (λ s. Reads u.decode (s ++ rest) (map node_of (c ∷ commands)) []) (sym (encode-alone u c))
      (goes_on (b ++ rest) (node_of c) (length b) (map node_of commands) []
        (parse_command u c rest h.0)
        (subst (λ s. Reads u.decode s (map node_of commands) []) (sym (drop-front b rest))
          (log_bytes-Reads u commands h.1)))

-- The bytes `$-n` and CRLF, with more behind them.
unfoldable pub negative_bulk : ℕ → Bytes → Bytes
negative_bulk n more = b'$' ∷ b'-' ∷ show_ℕ n ++ (crlf ++ more)

negative_bulk_line :
    (u : Utf8) (k : ℕ) (more : Bytes)
    → parse_buffer u.decode (negative_bulk (suc (suc k)) more)
      ≡ bulk_negative u.decode 0 (header (b'-' ∷ show_ℕ (suc (suc k)))) k more
unfolding parse_next negative_bulk parse_bulk_string show_ℤ
negative_bulk_line u k more =
    let line : Bytes = b'-' ∷ show_ℕ (suc (suc k)) in
    let plain : all_plain_ascii line ≡ true =
      unfold all_plain_ascii in all_plain_ascii-show_ℕ (suc (suc k)) in
    let on_length : Bytes → Bytes → Parsed =
      λ line rest. bulk_of_length u.decode 0 line rest (parse_int (u.decode line)) in
    ap (on_line on_length) (split_line-plain line more plain)
    ∙ ap (bulk_of_length u.decode 0 line more)
        (ap parse_int (decode-plain u line plain) ∙ parse_int-show_ℤ (negsuc (suc k)))

negative_bulk_size :
    (n : ℕ) (more : Bytes)
    → length (negative_bulk (suc n) more) ≡ header (b'-' ∷ show_ℕ (suc n)) + length more
unfolding negative_bulk
negative_bulk_size n more = omega (arith, length-append (show_ℕ (suc n)) (crlf ++ more))

slice_whole :
    (k headed : ℕ) (buffer : Bytes)
    → length buffer + headed < k
    → slice_from (negsuc (k - headed - 1)) buffer ≡ buffer
unfolding slice_from
slice_whole k headed buffer h =
    let none_left : length buffer - suc (k - headed - 1) ≡ 0 = omega arith in
    ap (λ n. drop n buffer) none_left

bulk_negative-far :
    (decode : Bytes → Text) (headed k : ℕ) (rest : Bytes)
    → headed < k
    → (node : Node) × (bulk_negative decode 0 headed k rest ≡ odd node (negsuc (k - headed - 1)))
unfolding bulk_negative ◌-ℤ◌
bulk_negative-far decode headed k rest h =
    let below_zero : sub_ℕ (headed + 0) (0 + k) ≡ negsuc (k - headed - 1) = ground arith in
    (
      bulk (
          some (
            decode (take (0 + headed + length rest - (k + 2 - (0 + headed)) - (0 + headed)) rest))),
      ground (arith, below_zero),
    )

-- On `$-n` and CRLF, whatever follows, the loop of `feed` does not end, for any fuel: with n above
-- twice the length of the buffer plus two, `bytesConsumed` is so far below zero that `buffer.slice` gives the
-- whole buffer back, and the same message is found again.
pub feed_loop-never_ends :
    (u : Utf8) (k : ℕ) (more : Bytes) (fuel : ℕ)
    → length (negative_bulk (suc (suc k)) more) * 2 < k
    → feed_loop u.decode fuel (negative_bulk (suc (suc k)) more) ≡ unfinished
unfolding feed_loop
feed_loop-never_ends u k more zero h = refl
feed_loop-never_ends u k more (suc fuel) h =
    let buffer = negative_bulk (suc (suc k)) more in
    let headed = header (b'-' ∷ show_ℕ (suc (suc k))) in
    let size = negative_bulk_size (suc k) more in
    let (node, far) = bulk_negative-far u.decode headed k more (omega (arith, size)) in
    ap (after_parse (feed_loop u.decode fuel) buffer) (negative_bulk_line u k more ∙ far)
    ∙ ap (λ s. cons_message node (feed_loop u.decode fuel s))
        (slice_whole k headed buffer (omega (arith, size)))
    ∙ ap (cons_message node) (feed_loop-never_ends u k more fuel h)
