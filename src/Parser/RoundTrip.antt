-- ===== src/Parser/RoundTrip.antt =====
-- src/core/protocol.js: the parser behind `encodeArrayOfBulkStrings`.
use redis_clone_js.Prelude.{
  ℕ, suc, ◌+◌, ◌≡◌, refl, ap, sym, ◌∙◌, Bool, true, false, Option, none, some, List, [], ◌∷◌, ◌++◌,
  arith, length, take, drop, ◌&&◌, length-append, append_assoc, append-nil,
}
use redis_clone_js.Prelude.Text.{Text, text}
use redis_clone_js.Prelude.Int.{pos, negsuc}
use redis_clone_js.Number.{parse_int, show_ℕ, show_ℤ}
use redis_clone_js.Number.Decimal.{parse_int-show_ℤ}
use redis_clone_js.Protocol.{crlf, utf8_length, encode_array_of_bulk_strings}
use redis_clone_js.Parser.Messages.{
  Node, bulk, array, cons, bulk_nodes, bulk_strings, array_node_to_string_array,
}
use redis_clone_js.Parser.{
  Bytes, Parsed, parsed, items, split_line, header, parse_bulk_string, bulk_of_length, bulk_content,
  parse_items, parse_array, array_of, array_of_count, parse_next, on_line, after_item, cons_items,
}
use redis_clone_js.Parser.Steady.{parse_next-Carries}
use redis_clone_js.Parser.Encoded.{
  Utf8, well_formed, all_plain_ascii, decode-plain, all_plain_ascii-show_ℕ, split_line-plain,
  item_bytes, items_bytes, command_bytes, encode-command,
}

-- Every string of the command is well formed.
unfoldable pub all_well_formed : List (Option Text) → Bool
unfolding well_formed
all_well_formed [] = true
all_well_formed (none ∷ arr) = all_well_formed arr
all_well_formed (some t ∷ arr) = well_formed false t && all_well_formed arr

-- The number in front of a bulk string or an array.
read_length : (u : Utf8) (n : ℕ) → parse_int (u.decode (show_ℕ n)) ≡ some (pos n)
unfolding show_ℤ
read_length u n =
    ap parse_int (decode-plain u (show_ℕ n) (all_plain_ascii-show_ℕ n)) ∙ parse_int-show_ℤ (pos n)

take-front : {A : Type 0} (xs ys : List A) → take (length xs) (xs ++ ys) ≡ xs
take-front [] ys = refl
take-front (x ∷ xs) ys = ap (x ∷◌) (take-front xs ys)

pub drop-front : {A : Type 0} (xs ys : List A) → drop (length xs) (xs ++ ys) ≡ ys
drop-front [] ys = refl
drop-front (x ∷ xs) ys = drop-front xs ys

read_content :
    (u : Utf8) (headed : ℕ) (value : Text)
    → well_formed false value ≡ true
    → bulk_content u.decode headed (utf8_length value) (u.encode value ++ crlf)
      ≡ parsed (bulk (some value)) (headed + utf8_length value + 2)
unfolding bulk_content
read_content u headed value h =
    let size = u.length-encode value in
    let front =
      ap (λ n. u.decode (take n (u.encode value ++ crlf))) (sym size)
      ∙ ap u.decode (take-front (u.encode value) crlf)
      ∙ u.decode-encode value h in
    ground (arith, length-append (u.encode value) crlf, size, front)

read_bulk :
    (u : Utf8) (f offset : ℕ) (value : Text)
    → well_formed false value ≡ true
    → parse_next u.decode (suc f) offset (item_bytes u (some value))
      ≡ parsed (bulk (some value)) (length (item_bytes u (some value)))
unfolding parse_next item_bytes parse_bulk_string
read_bulk u f offset value h =
    let n = utf8_length value in
    ap (on_line _) (split_line-plain (show_ℕ n) (u.encode value ++ crlf) (all_plain_ascii-show_ℕ n))
    ∙ ap (bulk_of_length u.decode offset (show_ℕ n) (u.encode value ++ crlf)) (read_length u n)
    ∙ read_content u (header (show_ℕ n)) value h
    ∙ ap (parsed (bulk (some value))) (
        omega (
          arith,
          u.length-encode value,
          length-append (u.encode value) crlf,
          length-append (show_ℕ n) (crlf ++ (u.encode value ++ crlf)),
        ))

read_null :
    (u : Utf8) (f offset : ℕ)
    → parse_next u.decode (suc f) offset (item_bytes u none) ≡ parsed (bulk none) 5
unfolding parse_next item_bytes parse_bulk_string split_line show_ℤ
read_null u f offset = ap (bulk_of_length u.decode offset (text "-1") []) (
    ap parse_int (decode-plain u (text "-1") (unfold all_plain_ascii in refl))
    ∙ parse_int-show_ℤ (negsuc 0))

read_item :
    (u : Utf8) (f offset : ℕ) (item : Option Text) (arr : List (Option Text))
    → all_well_formed (item ∷ arr) ≡ true
    → parse_next u.decode (suc f) offset (item_bytes u item)
      ≡ parsed (bulk item) (length (item_bytes u item))
unfolding all_well_formed
read_item u f offset none arr h = read_null u f offset ∙ (unfold item_bytes in refl)
read_item u f offset (some value) arr h = read_bulk u f offset value (ground arith)

all_well_formed-tail :
    (item : Option Text) (arr : List (Option Text))
    → all_well_formed (item ∷ arr) ≡ true
    → all_well_formed arr ≡ true
unfolding all_well_formed
all_well_formed-tail none arr h = h
all_well_formed-tail (some value) arr h = ground arith

read_items :
    (u : Utf8) (f offset : ℕ) (arr : List (Option Text)) (more : Bytes)
    → all_well_formed arr ≡ true
    → parse_items (parse_next u.decode (suc f)) (length arr) offset (items_bytes u arr ++ more)
      ≡ items (bulk_nodes arr) (length (items_bytes u arr))
unfolding parse_items items_bytes bulk_nodes
read_items u f offset [] more h = refl
read_items u f offset (item ∷ arr) more h =
    let b = item_bytes u item in
    let rest = items_bytes u arr in
    let next = parse_next u.decode (suc f) in
    ap (λ s. parse_items next (suc (length arr)) offset s) (append_assoc b rest more)
    ∙ ap
        (λ p.
          after_item p
            (λ k. parse_items next (length arr) (offset + k) (drop k (b ++ (rest ++ more)))))
        ((parse_next-Carries u.decode (suc f) (suc f) (omega arith)).grows offset b (rest ++ more)
          (bulk item) (length b) (read_item u f offset item arr h))
    ∙ ap
        (λ s.
          cons_items (bulk item) (length b) (parse_items next (length arr) (offset + length b) s))
        (drop-front b (rest ++ more))
    ∙ ap (cons_items (bulk item) (length b))
        (read_items u f (offset + length b) arr more (all_well_formed-tail item arr h))
    ∙ ap (items (cons (bulk item) (bulk_nodes arr))) (sym (length-append b rest))

-- The bytes of a command parse to the array of its strings.
pub read_command :
    (u : Utf8) (f offset : ℕ) (arr : List (Option Text)) (more : Bytes)
    → all_well_formed arr ≡ true
    → parse_next u.decode (suc (suc f)) offset (command_bytes u arr ++ more)
      ≡ parsed (array (bulk_nodes arr)) (length (command_bytes u arr))
unfolding parse_next command_bytes parse_array
read_command u f offset arr more h =
    let n = show_ℕ (length arr) in
    let b = items_bytes u arr in
    let next = parse_next u.decode (suc f) in
    let on_header : Bytes → Bytes → Parsed =
      λ line rest. array_of_count next offset line rest (parse_int (u.decode line)) in
    ap (λ s. on_line on_header (split_line s)) (append_assoc n (crlf ++ b) more)
    ∙ ap (on_line on_header) (split_line-plain n (b ++ more) (all_plain_ascii-show_ℕ (length arr)))
    ∙ ap (array_of_count next offset n (b ++ more)) (read_length u (length arr))
    ∙ ap (array_of (header n)) (read_items u f (offset + header n) arr more h)
    ∙ ap (parsed (array (bulk_nodes arr))) (omega (arith, length-append n (crlf ++ b)))

pub bulk_strings-bulk_nodes : (arr : List (Option Text)) → bulk_strings (bulk_nodes arr) ≡ some arr
unfolding bulk_strings bulk_nodes
bulk_strings-bulk_nodes [] = refl
bulk_strings-bulk_nodes (t ∷ arr) = rw (bulk_strings-bulk_nodes arr) refl

-- The bytes of an encoded command in front of other text parse to a node that
-- `arrayNodeToStringArray` turns into the strings of the command, nulls included, and the parser
-- takes the bytes of that command and no more; the strings have no surrogate without its partner.
pub parse_next-encode_array_of_bulk_strings :
    (u : Utf8) (f offset : ℕ) (arr : List (Option Text)) (t : Text)
    → all_well_formed arr ≡ true
    → (node : Node) × (parse_next u.decode
          (suc (suc f))
          offset
          (u.encode (encode_array_of_bulk_strings arr ++ t))
        ≡ parsed node (length (u.encode (encode_array_of_bulk_strings arr))))
      × (array_node_to_string_array node ≡ some arr)
unfolding array_node_to_string_array
parse_next-encode_array_of_bulk_strings u f offset arr t h =
    let alone =
      ap u.encode (sym (append-nil (encode_array_of_bulk_strings arr)))
      ∙ encode-command u arr []
      ∙ ap (command_bytes u arr ++◌) u.encode-nil
      ∙ append-nil (command_bytes u arr) in
    (
      array (bulk_nodes arr),
      ap (parse_next u.decode (suc (suc f)) offset) (encode-command u arr t)
          ∙ read_command u f offset arr (u.encode t) h
          ∙ ap (λ s. parsed (array (bulk_nodes arr)) (length s)) (sym alone),
      bulk_strings-bulk_nodes arr,
    )
