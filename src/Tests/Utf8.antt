-- ===== src/Tests/Utf8.antt =====
-- A coding of texts that has the laws of UTF-8: a code unit behind ASCII is one number, with 128s
-- behind it for the other bytes.
use redis_clone_js.Prelude.{
  ℕ, zero, suc, ◌+◌, ◌-◌, ◌<◌, ◌≡◌, refl, ap, ◌∙◌, sym, Bool, false, [], ◌∷◌, ◌++◌, arith, length,
  ltb, ◌==◌, if◌then◌else◌, replicate, length-append, length-replicate, append_assoc,
}
use redis_clone_js.Prelude.Text.{Text}
use redis_clone_js.Protocol.{is_high, unit_bytes, utf8_bytes, utf8_length}
use redis_clone_js.Parser.{Bytes}
use redis_clone_js.Parser.Encoded.{Utf8}

abbrev unit_code : Bool → ℕ → Bytes
unit_code after_high c =
    if ltb c 128 then c ∷ [] else (c + 128) ∷ replicate (unit_bytes after_high c - 1) 128

abbrev encode_units : Bool → Text → Bytes
encode_units after_high [] = []
encode_units after_high (c ∷ s) = unit_code after_high c ++ encode_units (is_high c) s

abbrev decode_bytes : Bytes → Text
decode_bytes [] = []
decode_bytes (b ∷ s) =
    let rest = decode_bytes s in
    if ltb b 128 then b ∷ rest else if b == 128 then rest else (b - 128) ∷ rest

length-unit_code : (h : Bool) (c : ℕ) → length (unit_code h c) ≡ unit_bytes h c
unfolding unit_bytes
length-unit_code h c = ground (arith, length-replicate {A = ℕ} (unit_bytes h c - 1) 128)

length-encode_units : (h : Bool) (s : Text) → length (encode_units h s) ≡ utf8_bytes h s
unfolding utf8_bytes
length-encode_units h [] = refl
length-encode_units h (c ∷ s) = omega (
  arith,
  length-append (unit_code h c) (encode_units (is_high c) s),
  length-unit_code h c,
  length-encode_units (is_high c) s,
)

decode-padding : (n : ℕ) (s : Bytes) → decode_bytes (replicate n 128 ++ s) ≡ decode_bytes s
decode-padding zero s = refl
decode-padding (suc n) s = decode-padding n s

decode-unit :
    (h : Bool) (c : ℕ) (s : Bytes) → decode_bytes (unit_code h c ++ s) ≡ c ∷ decode_bytes s
decode-unit h c s = ground (arith, decode-padding (unit_bytes h c - 1) s)

pub decode-encode_units : (h : Bool) (s : Text) → decode_bytes (encode_units h s) ≡ s
decode-encode_units h [] = refl
decode-encode_units h (c ∷ s) =
    decode-unit h c (encode_units (is_high c) s) ∙ ap (c ∷◌) (decode-encode_units (is_high c) s)

pub encode_ascii :
    (h : Bool) (c : ℕ) (s : Text) → c < 128 → encode_units h (c ∷ s) ≡ c ∷ encode_units false s
encode_ascii h c s small = ground arith

pub encode_in_front :
    (h : Bool) (s : Text) (c : ℕ) (t : Text)
    → c < 128
    → encode_units h (s ++ (c ∷ t)) ≡ encode_units h s ++ encode_units false (c ∷ t)
encode_in_front h [] c t small = encode_ascii h c t small ∙ sym (encode_ascii false c t small)
encode_in_front h (x ∷ s) c t small =
    ap (unit_code h x ++◌) (encode_in_front (is_high x) s c t small)
    ∙ sym (append_assoc (unit_code h x) (encode_units (is_high x) s) (encode_units false (c ∷ t)))

pub length-encoded : (s : Text) → length (encode_units false s) ≡ utf8_length s
unfolding utf8_length
length-encoded s = length-encode_units false s

abbrev pub padded : Utf8
padded = record {
  encode = encode_units false;
  decode = decode_bytes;
  encode-nil = refl;
  encode-ascii = λ c s h. encode_ascii false c s h;
  encode-in_front = λ s c t h. encode_in_front false s c t h;
  length-encode = λ s. length-encoded s;
  decode-encode = λ s h. decode-encode_units false s;
}
