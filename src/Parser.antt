-- ===== src/Parser.antt =====
-- src/core/protocol.js: CommandParser without its buffer. `suf` is the buffer from the offset on; the
-- offset itself matters only where a bulk length below -1 lets `slice` count from the end.
pub mod Messages
pub mod Feed
pub mod Extend
pub mod Lines
pub mod Steady
pub mod Lengths
pub mod Prefixes
pub mod Reads
pub mod Chunks
pub mod Encoded
pub mod RoundTrip
pub mod Logs
use redis_clone_js.Prelude.{
  ℕ, zero, suc, ◌+◌, ◌-◌, Bool, true, false, Option, none, some, List, [], ◌∷◌, ◌++◌, length, take,
  drop, ltb, leb, ◌==◌, ◌&&◌, if◌then◌else◌,
}
use redis_clone_js.Prelude.Text.{Text, text}
use redis_clone_js.Prelude.Int.{ℤ, pos, negsuc, ◌-ℤ◌}
use redis_clone_js.Number.{parse_int}
use redis_clone_js.Parser.Messages.{
  Node, simple, error, integer, bulk, null_array, array, Nodes, nil, cons,
}

abbrev pub Bytes : Type 0
Bytes = List ℕ

-- `wait` is bytesConsumed 0. `odd` is a bulk string whose content `slice` takes by a negative end, or
-- whose bytesConsumed is negative; inside an array the model does not follow it (`astray`, which
-- also stands for too little fuel).
pub data Parsed : Type 0 where
  wait : Parsed
  parsed : Node → ℕ → Parsed
  odd : Node → ℤ → Parsed
  astray : Parsed

pub data ParsedItems : Type 0 where
  wait : ParsedItems
  items : Nodes → ℕ → ParsedItems
  astray : ParsedItems

-- `_indexOfCrlf`: what stands before the first CRLF, and what stands behind it.
abbrev pub cons_line : ℕ → Option (Bytes × Bytes) → Option (Bytes × Bytes)
cons_line x none = none
cons_line x (some (line, rest)) = some (x ∷ line, rest)

unfoldable pub split_line : Bytes → Option (Bytes × Bytes)
split_line [] = none
split_line (x ∷ []) = none
split_line (x ∷ y ∷ s) =
    let further = cons_line x (split_line (y ∷ s)) in
    if x == 13 && y == 10 then some ([], s) else further

-- The number of bytes of the prefix, the line and CRLF.
abbrev pub header : Bytes → ℕ
header line = length line + 3

-- line.startsWith("ERR ") ? line.slice(4) : line
unfoldable pub error_message : Text → Text
error_message (a ∷ b ∷ c ∷ d ∷ s) =
    if a == b'E' && (b == b'R' && (c == b'R' && d == b' ')) then s else a ∷ b ∷ c ∷ d ∷ s
error_message s = s

-- The bulk string of `n` bytes behind its header, when they and CRLF are there.
unfoldable pub bulk_content : (Bytes → Text) → ℕ → ℕ → Bytes → Parsed
bulk_content decode headed n rest =
    if ltb (length rest) (n + 2)
    then wait
    else parsed (bulk (some (decode (take n rest)))) (headed + n + 2)

-- A length of -(k + 2): `needed` is headed - k, and `slice` ends at offset + headed - (k + 2).
unfoldable pub bulk_negative : (Bytes → Text) → ℕ → ℕ → ℕ → Bytes → Parsed
bulk_negative decode offset headed k rest =
    let start = offset + headed in
    let node : Node =
      if leb (k + 2) start
      then bulk (some (decode []))
      else bulk (some (decode (take (start + length rest - (k + 2 - start) - start) rest))) in
    if k == headed
    then wait
    else if ltb k headed && leb (k + 2) start
    then parsed node (headed - k)
    else odd node (pos headed -ℤ pos k)

-- What is done with a line behind a prefix, when there is one.
abbrev pub on_line : (Bytes → Bytes → Parsed) → Option (Bytes × Bytes) → Parsed
on_line f none = wait
on_line f (some (line, rest)) = f line rest

abbrev pub with_line : Bytes → (Bytes → Bytes → Parsed) → Parsed
with_line s f = on_line f (split_line s)

abbrev pub bulk_of_length : (Bytes → Text) → ℕ → Bytes → Bytes → Option ℤ → Parsed
bulk_of_length decode offset line rest none =
    parsed (error (text "Protocol error: invalid bulk length")) (header line)
bulk_of_length decode offset line rest (some (pos n)) = bulk_content decode (header line) n rest
bulk_of_length decode offset line rest (some (negsuc zero)) = parsed (bulk none) (header line)
bulk_of_length decode offset line rest (some (negsuc (suc k))) =
    bulk_negative decode offset (header line) k rest

unfoldable pub parse_bulk_string : (Bytes → Text) → ℕ → Bytes → Parsed
unfolding split_line bulk_content bulk_negative
parse_bulk_string decode offset s =
    with_line s (λ line rest. bulk_of_length decode offset line rest (parse_int (decode line)))

abbrev pub integer_of : Bytes → Option ℤ → Parsed
integer_of line none = parsed (error (text "Protocol error: invalid integer")) (header line)
integer_of line (some n) = parsed (integer n) (header line)

unfoldable pub parse_integer : (Bytes → Text) → Bytes → Parsed
unfolding split_line
parse_integer decode s = with_line s (λ line rest. integer_of line (parse_int (decode line)))

unfoldable pub parse_simple_string : (Bytes → Text) → Bytes → Parsed
unfolding split_line
parse_simple_string decode s =
    with_line s (λ line rest. parsed (simple (decode line)) (header line))

unfoldable pub parse_error : (Bytes → Text) → Bytes → Parsed
unfolding split_line error_message
parse_error decode s =
    with_line s (λ line rest. parsed (error (error_message (decode line))) (header line))

-- Any other prefix; an empty line counts as none.
abbrev pub unknown_of : ℕ → Bytes → Text → Parsed
unknown_of prefix line [] = wait
unknown_of prefix line (_ ∷ _) =
    parsed (error (text "Protocol error: unknown prefix '" ++ (prefix ∷ text "'")))
      (length line + 2)

unfoldable pub parse_unknown : (Bytes → Text) → ℕ → Bytes → Parsed
unfolding split_line
parse_unknown decode prefix suf = with_line suf (λ line rest. unknown_of prefix line (decode line))

abbrev pub cons_items : Node → ℕ → ParsedItems → ParsedItems
cons_items node k wait = wait
cons_items node k (items nodes m) = items (cons node nodes) (k + m)
cons_items node k astray = astray

-- What follows an item, if there is one: `go_on` parses the items behind its `k` bytes.
abbrev pub after_item : Parsed → (ℕ → ParsedItems) → ParsedItems
after_item wait go_on = wait
after_item (parsed node k) go_on = cons_items node k (go_on k)
after_item (odd node k) go_on = astray
after_item astray go_on = astray

-- The loop over the items of an array; `next` is `_parseNext`.
unfoldable pub parse_items : (ℕ → Bytes → Parsed) → ℕ → ℕ → Bytes → ParsedItems
parse_items next zero offset suf = items nil 0
parse_items next (suc count) offset suf =
    after_item (next offset suf) (λ k. parse_items next count (offset + k) (drop k suf))

abbrev pub array_of : ℕ → ParsedItems → Parsed
array_of headed wait = wait
array_of headed (items nodes m) = parsed (array nodes) (headed + m)
array_of headed astray = astray

abbrev pub array_of_count : (ℕ → Bytes → Parsed) → ℕ → Bytes → Bytes → Option ℤ → Parsed
array_of_count next offset line rest none =
    parsed (error (text "Protocol error: invalid array length")) (header line)
array_of_count next offset line rest (some (pos n)) =
    array_of (header line) (parse_items next n (offset + header line) rest)
array_of_count next offset line rest (some (negsuc zero)) = parsed null_array (header line)
array_of_count next offset line rest (some (negsuc (suc k))) = parsed (array nil) (header line)

unfoldable pub parse_array : (Bytes → Text) → (ℕ → Bytes → Parsed) → ℕ → Bytes → Parsed
unfolding split_line parse_items
parse_array decode next offset s =
    with_line s (λ line rest. array_of_count next offset line rest (parse_int (decode line)))

-- `_parseNext`. The fuel bounds the depth of nested arrays.
unfoldable pub parse_next : (Bytes → Text) → ℕ → ℕ → Bytes → Parsed
unfolding parse_simple_string parse_error parse_bulk_string parse_array parse_integer parse_unknown
parse_next decode zero offset suf = astray
parse_next decode (suc fuel) offset [] = wait
parse_next decode (suc fuel) offset (prefix ∷ s) =
    let nested = parse_array decode (parse_next decode fuel) offset s in
    if prefix == b'+'
    then parse_simple_string decode s
    else if prefix == b'-'
    then parse_error decode s
    else if prefix == b'$'
    then parse_bulk_string decode offset s
    else if prefix == b'*'
    then nested
    else if prefix == b':'
    then parse_integer decode s
    else parse_unknown decode prefix (prefix ∷ s)
