-- ===== src/Parser/Lengths.antt =====
-- Buffers without bulk lengths below -1, and what src/core/protocol.js finds in them.
use redis_clone_js.Prelude.{
  ℕ, zero, suc, ◌+◌, ◌≤◌, ◌<◌, ◌≡◌, refl, Bool, true, false, not, ◌&&◌, ◌||◌, Option, none, some,
  [], ◌∷◌, arith, length, drop, ◌==◌, Option-cases, inl, inr,
}
use redis_clone_js.Prelude.Text.{Text}
use redis_clone_js.Prelude.Int.{ℤ, pos, negsuc}
use redis_clone_js.Number.{parse_int}
use redis_clone_js.Parser.Messages.{Node}
use redis_clone_js.Parser.{
  Bytes, Parsed, parsed, wait, astray, odd, ParsedItems, items, split_line, header,
  parse_bulk_string, bulk_content, bulk_of_length, parse_integer, parse_simple_string, parse_error,
  parse_unknown, parse_items, parse_array, array_of_count, array_of, cons_items, after_item,
  parse_next, integer_of, unknown_of,
}
use redis_clone_js.Parser.Extend.{length-split_line}
use redis_clone_js.Parser.Steady.{Carries, parse_next-Carries, length-drop_le}

-- Neither `odd` nor `astray`.
abbrev pub IsPlain : Parsed → Type 0
IsPlain wait = Unit
IsPlain (parsed node k) = Unit
IsPlain (odd node k) = ⊥
IsPlain astray = ⊥

abbrev pub below_null : Option ℤ → Bool
below_null none = false
below_null (some (pos n)) = false
below_null (some (negsuc zero)) = false
below_null (some (negsuc (suc n))) = true

-- The line in front of CRLF is no number below -1.
abbrev line_fits : (Bytes → Text) → Option (Bytes × Bytes) → Bool
line_fits decode none = true
line_fits decode (some (line, rest)) = not (below_null (parse_int (decode line)))

-- No `$` of the buffer stands in front of a line that reads as a number below -1.
unfoldable pub lengths_fit : (Bytes → Text) → Bytes → Bool
unfolding split_line
lengths_fit decode [] = true
lengths_fit decode (x ∷ s) =
    (not (x == b'$') || line_fits decode (split_line s)) && lengths_fit decode s

module _ (decode : Bytes → Text) where
  pub lengths_fit-drop :
      (k : ℕ) (s : Bytes) → lengths_fit decode s ≡ true → lengths_fit decode (drop k s) ≡ true
  unfolding lengths_fit
  lengths_fit-drop zero s h = h
  lengths_fit-drop (suc k) [] h = h
  lengths_fit-drop (suc k) (x ∷ s) h = lengths_fit-drop k s (ground arith)

  lengths_fit-split_line :
      (s line rest : Bytes)
      → split_line s ≡ some (line, rest)
      → lengths_fit decode s ≡ true
      → lengths_fit decode rest ≡ true
  unfolding split_line lengths_fit
  lengths_fit-split_line [] line rest e h = absurd (cc)
  lengths_fit-split_line (x ∷ []) line rest e h = absurd (cc)
  lengths_fit-split_line (x ∷ y ∷ s) line rest e h = elim (Option-cases (split_line (y ∷ s))) [
    | inl stuck ↦ ground arith
    | inr ((line', rest'), found) ↦ ground (arith, lengths_fit-split_line (y ∷ s) line' rest' found)
  ]

  bulk_of_length-IsPlain :
      (offset : ℕ) (line rest : Bytes) (o : Option ℤ)
      → below_null o ≡ false
      → IsPlain (bulk_of_length decode offset line rest o)
  unfolding bulk_content
  bulk_of_length-IsPlain offset line rest none h = tt
  bulk_of_length-IsPlain offset line rest (some (pos n)) h = ground arith
  bulk_of_length-IsPlain offset line rest (some (negsuc zero)) h = tt
  bulk_of_length-IsPlain offset line rest (some (negsuc (suc n))) h = absurd (cc)

  bulk-IsPlain :
      (offset : ℕ) (s : Bytes)
      → line_fits decode (split_line s) ≡ true
      → IsPlain (parse_bulk_string decode offset s)
  unfolding parse_bulk_string
  bulk-IsPlain offset s h = elim (Option-cases (split_line s)) [
    | inl stuck ↦ rw stuck tt
    | inr ((line, rest), found) ↦
        rw found (bulk_of_length-IsPlain offset line rest (parse_int (decode line)) (ground arith))
  ]

  integer_of-IsPlain : (line : Bytes) (o : Option ℤ) → IsPlain (integer_of line o)
  integer_of-IsPlain line none = tt
  integer_of-IsPlain line (some n) = tt

  pub integer-IsPlain : (s : Bytes) → IsPlain (parse_integer decode s)
  unfolding parse_integer
  integer-IsPlain s = elim (Option-cases (split_line s)) [
    | inl stuck ↦ rw stuck tt
    | inr ((line, rest), found) ↦ rw found (integer_of-IsPlain line (parse_int (decode line)))
  ]

  pub simple-IsPlain : (s : Bytes) → IsPlain (parse_simple_string decode s)
  unfolding parse_simple_string
  simple-IsPlain s = elim (Option-cases (split_line s)) [
    | inl stuck ↦ rw stuck tt
    | inr ((line, rest), found) ↦ rw found tt
  ]

  pub error-IsPlain : (s : Bytes) → IsPlain (parse_error decode s)
  unfolding parse_error
  error-IsPlain s = elim (Option-cases (split_line s)) [
    | inl stuck ↦ rw stuck tt
    | inr ((line, rest), found) ↦ rw found tt
  ]

  unknown_of-IsPlain : (prefix : ℕ) (line : Bytes) (t : Text) → IsPlain (unknown_of prefix line t)
  unknown_of-IsPlain prefix line [] = tt
  unknown_of-IsPlain prefix line (_ ∷ _) = tt

  pub unknown-IsPlain : (prefix : ℕ) (s : Bytes) → IsPlain (parse_unknown decode prefix s)
  unfolding parse_unknown
  unknown-IsPlain prefix s = elim (Option-cases (split_line s)) [
    | inl stuck ↦ rw stuck tt
    | inr ((line, rest), found) ↦ rw found (unknown_of-IsPlain prefix line (decode line))
  ]

abbrev pub ArePlain : ParsedItems → Type 0
ArePlain ParsedItems.wait = Unit
ArePlain (items nodes m) = Unit
ArePlain ParsedItems.astray = ⊥

cons_items-ArePlain :
    (node : Node) (k : ℕ) (r : ParsedItems) → ArePlain r → ArePlain (cons_items node k r)
cons_items-ArePlain node k ParsedItems.wait h = tt
cons_items-ArePlain node k (items nodes m) h = tt
cons_items-ArePlain node k ParsedItems.astray h = h

pub after_item-ArePlain :
    (p : Parsed) (go_on : ℕ → ParsedItems)
    → IsPlain p
    → ((node : Node) (k : ℕ) → p ≡ parsed node k → ArePlain (go_on k))
    → ArePlain (after_item p go_on)
after_item-ArePlain wait go_on h later = tt
after_item-ArePlain (parsed node k) go_on h later =
    cons_items-ArePlain node k (go_on k) (later node k refl)
after_item-ArePlain (odd node k) go_on h later = elim h [ ]
after_item-ArePlain astray go_on h later = elim h [ ]

pub array_of-IsPlain : (h : ℕ) (r : ParsedItems) → ArePlain r → IsPlain (array_of h r)
array_of-IsPlain h ParsedItems.wait p = tt
array_of-IsPlain h (items nodes m) p = tt
array_of-IsPlain h ParsedItems.astray p = p

-- A parser that is plain on every buffer of less than `f` bytes whose bulk lengths fit.
abbrev PlainBelow : (Bytes → Text) → ℕ → (ℕ → Bytes → Parsed) → Type 0
PlainBelow decode f next =
    (offset : ℕ) (s : Bytes) → length s < f → lengths_fit decode s ≡ true → IsPlain (next offset s)

module _ (decode : Bytes → Text) (f : ℕ) (next next' : ℕ → Bytes → Parsed)
    (plain : PlainBelow decode f next) (c : Carries next next') where
  parse_items-ArePlain :
      (n offset : ℕ) (s : Bytes)
      → length s < f
      → lengths_fit decode s ≡ true
      → ArePlain (parse_items next n offset s)
  unfolding parse_items
  parse_items-ArePlain zero offset s short h = tt
  parse_items-ArePlain (suc n) offset s short h =
      after_item-ArePlain (next offset s) _ (plain offset s short h) (λ node k e.
        parse_items-ArePlain n (offset + k) (drop k s)
          (omega (arith, length-drop_le k s ((c.fits offset s node k e).1)))
          (lengths_fit-drop decode k s h))

  array_of_count-IsPlain :
      (offset : ℕ) (line rest : Bytes) (o : Option ℤ)
      → length rest < f
      → lengths_fit decode rest ≡ true
      → IsPlain (array_of_count next offset line rest o)
  array_of_count-IsPlain offset line rest none short h = tt
  array_of_count-IsPlain offset line rest (some (pos n)) short h =
      array_of-IsPlain (header line) _ (parse_items-ArePlain n (offset + header line) rest short h)
  array_of_count-IsPlain offset line rest (some (negsuc zero)) short h = tt
  array_of_count-IsPlain offset line rest (some (negsuc (suc n))) short h = tt

  array-IsPlain :
      (offset : ℕ) (s : Bytes)
      → length s ≤ f
      → lengths_fit decode s ≡ true
      → IsPlain (parse_array decode next offset s)
  unfolding parse_array
  array-IsPlain offset s short h = elim (Option-cases (split_line s)) [
    | inl stuck ↦ rw stuck tt
    | inr ((line, rest), found) ↦ rw found (
        array_of_count-IsPlain offset line rest (parse_int (decode line))
          (omega (arith, length-split_line s line rest found))
          (lengths_fit-split_line decode s line rest found h))
  ]

-- With fuel above the length of the buffer, `_parseNext` waits or finds a message.
pub parse_next-IsPlain : (decode : Bytes → Text) (f : ℕ) → PlainBelow decode f (parse_next decode f)
unfolding parse_next lengths_fit
parse_next-IsPlain decode zero offset s short h = absurd (omega arith)
parse_next-IsPlain decode (suc f) offset [] short h = tt
parse_next-IsPlain decode (suc f) offset (p ∷ s) short h =
    let nested =
      array-IsPlain decode f (parse_next decode f) (parse_next decode f)
        (parse_next-IsPlain decode f) (parse_next-Carries decode f f (omega arith)) offset s
        (omega arith) (ground arith) in
    ground (
      arith,
      simple-IsPlain decode s,
      error-IsPlain decode s,
      bulk-IsPlain decode offset s,
      nested,
      integer-IsPlain decode s,
      unknown-IsPlain decode p (p ∷ s),
    )
