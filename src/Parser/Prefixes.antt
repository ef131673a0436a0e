-- ===== src/Parser/Prefixes.antt =====
-- The first bytes of an input, and bulk lengths below -1 in them (src/core/protocol.js).
use redis_clone_js.Prelude.{
  ℕ, zero, suc, ◌+◌, ◌≤◌, ◌<◌, subst, Option, none, some, [], ◌∷◌, ◌++◌, arith, length, drop,
  Option-cases, inl, inr,
}
use redis_clone_js.Prelude.Text.{Text}
use redis_clone_js.Prelude.Int.{ℤ, pos, negsuc}
use redis_clone_js.Number.{parse_int}
use redis_clone_js.Parser.Messages.{Node}
use redis_clone_js.Parser.{
  Bytes, Parsed, parsed, wait, astray, odd, ParsedItems, items, split_line, header,
  parse_bulk_string, bulk_content, bulk_negative, bulk_of_length, parse_items, parse_array,
  array_of_count, array_of, cons_items, after_item, parse_next, on_line,
}
use redis_clone_js.Parser.Extend.{split_line-append, length-split_line, drop-append}
use redis_clone_js.Parser.Steady.{Carries, parse_next-Carries, length-drop_le}
use redis_clone_js.Parser.Lengths.{
  IsPlain, ArePlain, simple-IsPlain, error-IsPlain, integer-IsPlain, unknown-IsPlain,
  array_of-IsPlain, after_item-ArePlain,
}

module _ (decode : Bytes → Text) where
  bulk_of_length-IsPlain_prefix :
      (offset : ℕ) (line rest more : Bytes) (o : Option ℤ)
      → IsPlain (bulk_of_length decode offset line (rest ++ more) o)
      → IsPlain (bulk_of_length decode offset line rest o)
  unfolding bulk_content bulk_negative
  bulk_of_length-IsPlain_prefix offset line rest more none h = tt
  bulk_of_length-IsPlain_prefix offset line rest more (some (pos n)) h = ground arith
  bulk_of_length-IsPlain_prefix offset line rest more (some (negsuc zero)) h = tt
  bulk_of_length-IsPlain_prefix offset line rest more (some (negsuc (suc n))) h = ground arith

  bulk-IsPlain_prefix :
      (offset : ℕ) (s more : Bytes)
      → IsPlain (parse_bulk_string decode offset (s ++ more))
      → IsPlain (parse_bulk_string decode offset s)
  unfolding parse_bulk_string
  bulk-IsPlain_prefix offset s more h = elim (Option-cases (split_line s)) [
    | inl stuck ↦ rw stuck tt
    | inr ((line, rest), found) ↦
        let on_length : Bytes → Bytes → Parsed =
          λ line rest. bulk_of_length decode offset line rest (parse_int (decode line)) in
        rw found (
          bulk_of_length-IsPlain_prefix offset line rest more (parse_int (decode line)) (
            subst (λ o. IsPlain (on_line on_length o)) (split_line-append s more line rest found)
              h))
  ]

array_of-ArePlain : (h : ℕ) (r : ParsedItems) → IsPlain (array_of h r) → ArePlain r
array_of-ArePlain h ParsedItems.wait p = tt
array_of-ArePlain h (items nodes m) p = tt
array_of-ArePlain h ParsedItems.astray p = p

cons_items-ArePlain_inv :
    (node : Node) (k : ℕ) (r : ParsedItems) → ArePlain (cons_items node k r) → ArePlain r
cons_items-ArePlain_inv node k ParsedItems.wait h = tt
cons_items-ArePlain_inv node k (items nodes m) h = tt
cons_items-ArePlain_inv node k ParsedItems.astray h = h

after_item-IsPlain :
    (p : Parsed) (go_on : ℕ → ParsedItems) → ArePlain (after_item p go_on) → IsPlain p
after_item-IsPlain wait go_on h = tt
after_item-IsPlain (parsed node k) go_on h = tt
after_item-IsPlain (odd node k) go_on h = h
after_item-IsPlain astray go_on h = h

-- On buffers of less than `f` bytes, `next` is plain where `next'` is with more input.
abbrev PlainPrefix : ℕ → (ℕ → Bytes → Parsed) → (ℕ → Bytes → Parsed) → Type 0
PlainPrefix f next next' =
    (offset : ℕ) (s more : Bytes)
    → length s < f
    → IsPlain (next' offset (s ++ more))
    → IsPlain (next offset s)

module _ (f : ℕ) (next next' : ℕ → Bytes → Parsed) (c : Carries next next')
    (back : PlainPrefix f next next') where
  items_prefix :
      (n offset : ℕ) (s more : Bytes)
      → length s < f
      → ArePlain (parse_items next' n offset (s ++ more))
      → ArePlain (parse_items next n offset s)
  unfolding parse_items
  items_prefix zero offset s more short h = tt
  items_prefix (suc n) offset s more short h =
      after_item-ArePlain (next offset s) _ (back offset s more short (after_item-IsPlain _ _ h))
        (λ node k e.
          let within = (c.fits offset s node k e).1 in
          let carried =
            subst
              (λ p.
                ArePlain
                  (after_item p (λ k. parse_items next' n (offset + k) (drop k (s ++ more)))))
              (c.grows offset s more node k e) h in
          items_prefix n (offset + k) (drop k s) more (omega (arith, length-drop_le k s within)) (
            subst (λ b. ArePlain (parse_items next' n (offset + k) b)) (drop-append k s more within)
              (cons_items-ArePlain_inv node k _ carried)))

  count_prefix :
      (offset : ℕ) (line rest more : Bytes) (o : Option ℤ)
      → length rest < f
      → IsPlain (array_of_count next' offset line (rest ++ more) o)
      → IsPlain (array_of_count next offset line rest o)
  count_prefix offset line rest more none short h = tt
  count_prefix offset line rest more (some (pos n)) short h =
      array_of-IsPlain (header line) _ (
        items_prefix n (offset + header line) rest more short (array_of-ArePlain (header line) _ h))
  count_prefix offset line rest more (some (negsuc zero)) short h = tt
  count_prefix offset line rest more (some (negsuc (suc n))) short h = tt

  array_prefix :
      (decode : Bytes → Text) (offset : ℕ) (s more : Bytes)
      → length s ≤ f
      → IsPlain (parse_array decode next' offset (s ++ more))
      → IsPlain (parse_array decode next offset s)
  unfolding parse_array
  array_prefix decode offset s more short h = elim (Option-cases (split_line s)) [
    | inl stuck ↦ rw stuck tt
    | inr ((line, rest), found) ↦
        let on_count : Bytes → Bytes → Parsed =
          λ line rest. array_of_count next' offset line rest (parse_int (decode line)) in
        rw found (
          count_prefix offset line rest more (parse_int (decode line))
            (omega (arith, length-split_line s line rest found))
            (subst (λ o. IsPlain (on_line on_count o)) (split_line-append s more line rest found)
              h))
  ]

pub parse_next-PlainPrefix :
    (decode : Bytes → Text) (f g : ℕ)
    → f ≤ g
    → PlainPrefix f (parse_next decode f) (parse_next decode g)
unfolding parse_next
parse_next-PlainPrefix decode zero g le offset s more short h = absurd (omega arith)
parse_next-PlainPrefix decode (suc f) zero le offset s more short h = absurd (omega arith)
parse_next-PlainPrefix decode (suc f) (suc g) le offset [] more short h = tt
parse_next-PlainPrefix decode (suc f) (suc g) le offset (p ∷ s) more short h =
    let nested =
      array_prefix f (parse_next decode f) (parse_next decode g)
        (parse_next-Carries decode f g (omega arith))
        (parse_next-PlainPrefix decode f g (omega arith)) decode offset s more (omega arith) in
    ground (
      arith,
      simple-IsPlain decode s,
      error-IsPlain decode s,
      bulk-IsPlain_prefix decode offset s more,
      nested,
      integer-IsPlain decode s,
      unknown-IsPlain decode p (p ∷ s),
    )
