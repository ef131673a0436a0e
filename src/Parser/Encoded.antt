-- ===== src/Parser/Encoded.antt =====
-- The bytes of an encoded command, and what the parser finds in them. UTF-8 is a parameter: the two
-- directions of Node's Buffer, with what is documented of them.
use redis_clone_js.Prelude.{
  ℕ, zero, suc, ◌+◌, ◌/◌, ◌%◌, ◌<◌, ◌≡◌, refl, ap, sym, ◌∙◌, Bool, true, false, not, ◌&&◌, Option,
  none, some, List, [], ◌∷◌, ◌++◌, arith, length, ltb, ◌==◌, if◌then◌else◌, append_assoc,
  append-nil,
}
use redis_clone_js.Prelude.Text.{Text, text}
use redis_clone_js.Number.{show_ℕ, digits}
use redis_clone_js.Protocol.{
  crlf, is_high, is_low, utf8_length, encode_bulk_string, encode_items,
  encode_array_of_bulk_strings,
}
use redis_clone_js.Parser.{Bytes, split_line}

-- No surrogate stands without its partner; `after_high`: a high one stands in front.
unfoldable pub well_formed : Bool → Text → Bool
well_formed after_high [] = not after_high
well_formed after_high (c ∷ s) =
    (if is_low c then after_high else not after_high) && well_formed (is_high c) s

-- A byte or code unit of ASCII, other than CR.
abbrev is_plain_ascii : ℕ → Bool
is_plain_ascii c = ltb c 128 && not (c == 13)

unfoldable pub all_plain_ascii : List ℕ → Bool
all_plain_ascii [] = true
all_plain_ascii (c ∷ s) = is_plain_ascii c && all_plain_ascii s

-- Buffer.from(s, "utf8") and buf.toString("utf8").
pub record Utf8 : Type 0 where
  pub encode : Text → Bytes
  pub decode : Bytes → Text
  pub encode-nil : encode [] ≡ []
  pub encode-ascii : (c : ℕ) (s : Text) → c < 128 → encode (c ∷ s) ≡ c ∷ encode s
  pub encode-in_front :
      (s : Text) (c : ℕ) (t : Text) → c < 128 → encode (s ++ (c ∷ t)) ≡ encode s ++ encode (c ∷ t)
  pub length-encode : (s : Text) → length (encode s) ≡ utf8_length s
  pub decode-encode : (s : Text) → well_formed false s ≡ true → decode (encode s) ≡ s

encode-plain :
    (u : Utf8) (s t : Text) → all_plain_ascii s ≡ true → u.encode (s ++ t) ≡ s ++ u.encode t
unfolding all_plain_ascii
encode-plain u [] t h = refl
encode-plain u (c ∷ s) t h =
    u.encode-ascii c (s ++ t) (ground arith) ∙ ap (c ∷◌) (encode-plain u s t (ground arith))

encode-crlf : (u : Utf8) (t : Text) → u.encode (crlf ++ t) ≡ crlf ++ u.encode t
encode-crlf u t =
    u.encode-ascii 13 (10 ∷ t) (omega arith) ∙ ap (13 ∷◌) (u.encode-ascii 10 t (omega arith))

all_plain_ascii-well_formed : (s : Text) → all_plain_ascii s ≡ true → well_formed false s ≡ true
unfolding all_plain_ascii well_formed
all_plain_ascii-well_formed [] h = refl
all_plain_ascii-well_formed (c ∷ s) h = ground (arith, all_plain_ascii-well_formed s)

pub decode-plain : (u : Utf8) (s : Text) → all_plain_ascii s ≡ true → u.decode s ≡ s
decode-plain u s h =
    ap u.decode (sym (encode-plain u s [] h ∙ ap (s ++◌) u.encode-nil ∙ append-nil s))
    ∙ ap u.decode (ap u.encode (append-nil s))
    ∙ u.decode-encode s (all_plain_ascii-well_formed s h)

all_plain_ascii-digits :
    (f n : ℕ) (acc : Text) → all_plain_ascii acc ≡ true → all_plain_ascii (digits f n acc) ≡ true
unfolding digits all_plain_ascii
all_plain_ascii-digits zero n acc h = h
all_plain_ascii-digits (suc f) n acc h =
    ground (arith, all_plain_ascii-digits f (n / 10) ((b'0' + n % 10) ∷ acc))

pub all_plain_ascii-show_ℕ : (n : ℕ) → all_plain_ascii (show_ℕ n) ≡ true
unfolding show_ℕ
all_plain_ascii-show_ℕ n = all_plain_ascii-digits (suc n) n [] (unfold all_plain_ascii in refl)

pub split_line-plain :
    (s rest : Bytes) → all_plain_ascii s ≡ true → split_line (s ++ (crlf ++ rest)) ≡ some (s, rest)
unfolding split_line all_plain_ascii
split_line-plain [] rest h = refl
split_line-plain (x ∷ []) rest h = ground arith
split_line-plain (x ∷ y ∷ s) rest h = ground (arith, split_line-plain (y ∷ s) rest)

-- The bytes of an item and of a command.
unfoldable pub item_bytes : Utf8 → Option Text → Bytes
item_bytes u none = text "$-1" ++ crlf
item_bytes u (some value) = b'$' ∷ show_ℕ (utf8_length value) ++ (crlf ++ (u.encode value ++ crlf))

unfoldable pub items_bytes : Utf8 → List (Option Text) → Bytes
unfolding item_bytes
items_bytes u [] = []
items_bytes u (item ∷ arr) = item_bytes u item ++ items_bytes u arr

unfoldable pub command_bytes : Utf8 → List (Option Text) → Bytes
unfolding items_bytes
command_bytes u arr = b'*' ∷ show_ℕ (length arr) ++ (crlf ++ items_bytes u arr)

around_content :
    (n value t : List ℕ)
    → (n ++ (crlf ++ (value ++ crlf))) ++ t ≡ n ++ (crlf ++ (value ++ (crlf ++ t)))
around_content n value t =
    append_assoc n (crlf ++ (value ++ crlf)) t
    ∙ ap (λ s. n ++ (crlf ++ s)) (append_assoc value crlf t)

encode-bulk_string :
    (u : Utf8) (item : Option Text) (t : Text)
    → u.encode (encode_bulk_string item ++ t) ≡ item_bytes u item ++ u.encode t
unfolding encode_bulk_string item_bytes
encode-bulk_string u none t =
    encode-plain u (text "$-1") (crlf ++ t) (unfold all_plain_ascii in refl)
    ∙ ap (text "$-1" ++◌) (encode-crlf u t)
encode-bulk_string u (some value) t =
    let n = show_ℕ (utf8_length value) in
    u.encode-ascii b'$' _ (omega arith)
    ∙ ap (λ s. b'$' ∷ u.encode s) (around_content n value t)
    ∙ ap (b'$' ∷◌) (
        encode-plain u n (crlf ++ (value ++ (crlf ++ t)))
          (all_plain_ascii-show_ℕ (utf8_length value))
        ∙ ap (n ++◌) (
            encode-crlf u (value ++ (crlf ++ t))
            ∙ ap (crlf ++◌) (
                u.encode-in_front value 13 (10 ∷ t) (omega arith)
                ∙ ap (u.encode value ++◌) (encode-crlf u t)))
        ∙ sym (around_content n (u.encode value) (u.encode t)))

encode-items :
    (u : Utf8) (arr : List (Option Text)) (t : Text)
    → u.encode (encode_items arr ++ t) ≡ items_bytes u arr ++ u.encode t
unfolding encode_items items_bytes
encode-items u [] t = refl
encode-items u (item ∷ arr) t =
    ap u.encode (append_assoc (encode_bulk_string item) (encode_items arr) t)
    ∙ encode-bulk_string u item (encode_items arr ++ t)
    ∙ ap (item_bytes u item ++◌) (encode-items u arr t)
    ∙ sym (append_assoc (item_bytes u item) (items_bytes u arr) (u.encode t))

-- What `Buffer.from` gives for an encoded command in front of more text.
pub encode-command :
    (u : Utf8) (arr : List (Option Text)) (t : Text)
    → u.encode (encode_array_of_bulk_strings arr ++ t) ≡ command_bytes u arr ++ u.encode t
unfolding encode_array_of_bulk_strings command_bytes
encode-command u arr t =
    let n = show_ℕ (length arr) in
    u.encode-ascii b'*' _ (omega arith)
    ∙ ap (λ s. b'*' ∷ u.encode s) (append_assoc n (crlf ++ encode_items arr) t)
    ∙ ap (b'*' ∷◌) (
        encode-plain u n (crlf ++ (encode_items arr ++ t)) (all_plain_ascii-show_ℕ (length arr))
        ∙ ap (n ++◌) (encode-crlf u (encode_items arr ++ t) ∙ ap (crlf ++◌) (encode-items u arr t))
        ∙ sym (append_assoc n (crlf ++ items_bytes u arr) (u.encode t)))
