-- ===== src/Protocol.antt =====
-- src/core/protocol.js: the encoders of replies and of command arrays.
use redis_clone_js.Prelude.{
  ℕ, ◌+◌, ◌≡◌, refl, Bool, false, ◌&&◌, Option, none, some, List, [], ◌∷◌, ◌++◌, length, ltb, leb,
  if◌then◌else◌,
}
use redis_clone_js.Prelude.Text.{Text, text}
use redis_clone_js.Prelude.Int.{ℤ}
use redis_clone_js.Number.{show_ℕ, show_ℤ}

abbrev pub crlf : Text
crlf = 13 ∷ 10 ∷ []

-- A high surrogate opens a pair, which the low surrogate behind it ends.
abbrev pub is_high : ℕ → Bool
is_high c = leb 0xd800 c && leb c 0xdbff

abbrev pub is_low : ℕ → Bool
is_low c = leb 0xdc00 c && leb c 0xdfff

-- The bytes that a code unit adds in UTF-8; a surrogate without its partner becomes U+FFFD.
unfoldable pub unit_bytes : Bool → ℕ → ℕ
unit_bytes after_high c =
    if ltb c 0x80 then 1 else if ltb c 0x800 then 2 else if after_high && is_low c then 1 else 3

unfoldable pub utf8_bytes : Bool → Text → ℕ
unfolding unit_bytes
utf8_bytes after_high [] = 0
utf8_bytes after_high (c ∷ s) = unit_bytes after_high c + utf8_bytes (is_high c) s

-- Buffer.from(s, "utf8").length
unfoldable pub utf8_length : Text → ℕ
unfolding utf8_bytes
utf8_length s = utf8_bytes false s

unfoldable pub encode_simple_string : Text → Text
encode_simple_string value = b'+' ∷ value ++ crlf

unfoldable pub encode_error : Text → Text
encode_error message = text "-ERR " ++ (message ++ crlf)

-- `:${num}`, from the text of the number
unfoldable pub encode_shown : Text → Text
encode_shown num = b':' ∷ num ++ crlf

unfoldable pub encode_integer : ℤ → Text
unfolding encode_shown
encode_integer num = encode_shown (show_ℤ num)

-- `none` is null or undefined.
unfoldable pub encode_bulk_string : Option Text → Text
unfolding utf8_length
encode_bulk_string none = text "$-1" ++ crlf
encode_bulk_string (some value) = b'$' ∷ show_ℕ (utf8_length value) ++ (crlf ++ (value ++ crlf))

unfoldable pub encode_items : List (Option Text) → Text
unfolding encode_bulk_string
encode_items [] = []
encode_items (item ∷ arr) = encode_bulk_string item ++ encode_items arr

unfoldable pub encode_array_of_bulk_strings : List (Option Text) → Text
unfolding encode_items
encode_array_of_bulk_strings arr = b'*' ∷ show_ℕ (length arr) ++ (crlf ++ encode_items arr)

encode_ping :
    encode_array_of_bulk_strings (some (text "PING") ∷ none ∷ [])
    ≡ text "*2"
      ++ (crlf ++ (text "$4" ++ (crlf ++ (text "PING" ++ (crlf ++ (text "$-1" ++ crlf))))))
unfolding encode_array_of_bulk_strings show_ℕ
encode_ping = refl
