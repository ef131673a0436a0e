-- ===== src/Parser/Steady.antt =====
-- Lemmas on `_parseNext` of src/core/protocol.js, with more input behind a message and more fuel.
use redis_clone_js.Prelude.{
  ℕ, zero, suc, ◌+◌, ◌≤◌, ◌<◌, ◌≡◌, ◌≢◌, refl, ap, sym, Option, none, some, List, [], ◌∷◌, ◌++◌,
  arith, length, drop, Option-cases, inl, inr, ◌∙◌,
}
use redis_clone_js.Prelude.Text.{Text}
use redis_clone_js.Prelude.Int.{ℤ, pos, negsuc}
use redis_clone_js.Number.{parse_int}
use redis_clone_js.Parser.Messages.{Node, array, Nodes, cons}
use redis_clone_js.Parser.{
  Bytes, Parsed, parsed, wait, astray, odd, ParsedItems, items, split_line, header, parse_items,
  parse_array, array_of_count, array_of, cons_items, after_item, parse_next, on_line,
}
use redis_clone_js.Parser.Extend.{split_line-append, length-split_line, drop-append}
use redis_clone_js.Parser.Lines.{
  bulk-IsSteady, simple-IsSteady, error-IsSteady, integer-IsSteady, unknown-IsSteady,
}

-- What one step of the parser finds, another step finds too, with more input behind it.
pub record Carries (next next' : ℕ → Bytes → Parsed) : Type 0 where
  pub grows :
      (offset : ℕ) (s more : Bytes) (node : Node) (k : ℕ)
      → next offset s ≡ parsed node k
      → next' offset (s ++ more) ≡ parsed node k
  pub fits :
      (offset : ℕ) (s : Bytes) (node : Node) (k : ℕ)
      → next offset s ≡ parsed node k
      → (0 < k) × (k ≤ length s)

-- What `parse_items` found, by its first item.
record FirstItem (p : Parsed) (go_on : ℕ → ParsedItems) (nodes : Nodes) (m : ℕ) : Type 0 where
  node : Node
  size : ℕ
  others : Nodes
  others_size : ℕ
  first : p ≡ parsed node size
  further : go_on size ≡ items others others_size
  all : nodes ≡ cons node others
  all_size : m ≡ size + others_size

items_inv :
    (node : Node) (k : ℕ) (r : ParsedItems) (nodes : Nodes) (m : ℕ)
    → cons_items node k r ≡ items nodes m
    → (others : Nodes) × (l : ℕ) × (r ≡ items others l) × (nodes ≡ cons node others) × (m ≡ k + l)
items_inv node k (items others l) nodes m e = (others, l, refl, cc, ground arith)
items_inv node k ParsedItems.wait nodes m e = absurd (cc)
items_inv node k ParsedItems.astray nodes m e = absurd (cc)

first_item :
    (p : Parsed) (go_on : ℕ → ParsedItems) (nodes : Nodes) (m : ℕ)
    → after_item p go_on ≡ items nodes m
    → FirstItem p go_on nodes m
first_item (parsed node k) go_on nodes m e =
    let (others, l, further, all, all_size) = items_inv node k (go_on k) nodes m e in
    record {
      node = node;
      size = k;
      others = others;
      others_size = l;
      first = refl;
      further = further;
      all = all;
      all_size = all_size;
    }
first_item wait go_on nodes m e = absurd (cc)
first_item (odd node k) go_on nodes m e = absurd (cc)
first_item astray go_on nodes m e = absurd (cc)

pub length-drop_le :
    {A : Type 0} (k : ℕ) (xs : List A) → k ≤ length xs → length (drop k xs) + k ≡ length xs
length-drop_le zero xs h = omega arith
length-drop_le (suc k) [] h = absurd (omega arith)
length-drop_le (suc k) (x ∷ xs) h = omega (arith, length-drop_le k xs (omega arith))

module _ (next next' : ℕ → Bytes → Parsed) (c : Carries next next') where
  parse_items-carries :
      (n offset : ℕ) (s more : Bytes) (nodes : Nodes) (m : ℕ)
      → parse_items next n offset s ≡ items nodes m
      → (parse_items next' n offset (s ++ more) ≡ items nodes m) × (m ≤ length s)
  unfolding parse_items
  parse_items-carries zero offset s more nodes m e = (e, ground arith)
  parse_items-carries (suc n) offset s more nodes m e =
      let i = first_item (next offset s) _ nodes m e in
      let (some_bytes, within) = c.fits offset s i.node i.size i.first in
      let (same, rest_within) =
        parse_items-carries n (offset + i.size) (drop i.size s) more i.others i.others_size
          i.further in
      (
        rw (c.grows offset s more i.node i.size i.first)
            (rw (drop-append i.size s more within) (rw same (cc (i.all, i.all_size)))),
        omega (arith, rest_within, length-drop_le i.size s within, i.all_size),
      )

  module _ (decode : Bytes → Text) where
    array_of_inv :
        (h : ℕ) (r : ParsedItems) (node : Node) (k : ℕ)
        → array_of h r ≡ parsed node k
        → (nodes : Nodes) × (m : ℕ) × (r ≡ items nodes m) × (array nodes ≡ node) × (h + m ≡ k)
    array_of_inv h (items nodes m) node k e = (nodes, m, refl, cc, ground arith)
    array_of_inv h ParsedItems.wait node k e = absurd (cc)
    array_of_inv h ParsedItems.astray node k e = absurd (cc)

    array_of_count-carries :
        (offset : ℕ) (line rest more : Bytes) (o : Option ℤ) (node : Node) (k : ℕ)
        → array_of_count next offset line rest o ≡ parsed node k
        → (array_of_count next' offset line (rest ++ more) o ≡ parsed node k)
          × (0 < k)
          × (k ≤ length line + length rest + 3)
    array_of_count-carries offset line rest more none node k e = (e, ground arith, ground arith)
    array_of_count-carries offset line rest more (some (negsuc zero)) node k e =
        (e, ground arith, ground arith)
    array_of_count-carries offset line rest more (some (negsuc (suc n))) node k e =
        (e, ground arith, ground arith)
    array_of_count-carries offset line rest more (some (pos n)) node k e =
        let (nodes, m, found, same, size) = array_of_inv (header line) _ node k e in
        let (carried, within) =
          parse_items-carries n (offset + header line) rest more nodes m found in
        (
          ap (array_of (header line)) carried ∙ cc (same, size),
          omega (arith, size),
          omega (arith, size, within),
        )

    array-carries :
        (offset : ℕ) (s more : Bytes) (node : Node) (k : ℕ)
        → parse_array decode next offset s ≡ parsed node k
        → (parse_array decode next' offset (s ++ more) ≡ parsed node k)
          × (0 < k)
          × (k ≤ length s + 1)
    unfolding parse_array
    array-carries offset s more node k e = elim (Option-cases (split_line s)) [
      | inl stuck ↦ absurd (ground arith)
      | inr ((line, rest), found) ↦
          let e' : array_of_count next offset line rest (parse_int (decode line)) ≡ parsed node k =
            ap (on_line _) (sym found) ∙ e in
          let (a, b, c) =
            array_of_count-carries offset line rest more (parse_int (decode line)) node k e' in
          (
            ap (on_line _) (split_line-append s more line rest found) ∙ a,
            b,
            omega (arith, c, length-split_line s line rest found),
          )
    ]

module _ (decode : Bytes → Text) (f g : ℕ)
    (c : Carries (parse_next decode f) (parse_next decode g)) where
  step_grows :
      (offset : ℕ) (s more : Bytes) (node : Node) (k : ℕ)
      → parse_next decode (suc f) offset s ≡ parsed node k
      → parse_next decode (suc g) offset (s ++ more) ≡ parsed node k
  unfolding parse_next
  step_grows offset [] more node k e = absurd (cc)
  step_grows offset (p ∷ s) more node k e =
      let nested =
        array-carries (parse_next decode f) (parse_next decode g) c decode offset s more node k in
      ground (
        arith,
        (simple-IsSteady decode).grows s more node k,
        (error-IsSteady decode).grows s more node k,
        (bulk-IsSteady decode offset).grows s more node k,
        nested,
        (integer-IsSteady decode).grows s more node k,
        (unknown-IsSteady decode p).grows (p ∷ s) more node k,
      )

  step_fits :
      (offset : ℕ) (s : Bytes) (node : Node) (k : ℕ)
      → parse_next decode (suc f) offset s ≡ parsed node k
      → (0 < k) × (k ≤ length s)
  unfolding parse_next
  step_fits offset [] node k e = absurd (cc)
  step_fits offset (p ∷ s) node k e =
      let nested =
        array-carries (parse_next decode f) (parse_next decode g) c decode offset s [] node k in
      ground (
        arith,
        (simple-IsSteady decode).fits s node k,
        (error-IsSteady decode).fits s node k,
        (bulk-IsSteady decode offset).fits s node k,
        nested,
        (integer-IsSteady decode).fits s node k,
        (unknown-IsSteady decode p).fits (p ∷ s) node k,
      )

no_fuel :
    (decode : Bytes → Text) (offset : ℕ) (s : Bytes) (node : Node) (k : ℕ)
    → parse_next decode 0 offset s ≢ parsed node k
unfolding parse_next
no_fuel decode offset s node k e = absurd (cc)

-- `_parseNext` carries its messages over to more fuel and more input.
pub parse_next-Carries :
    (decode : Bytes → Text) (f g : ℕ) → f ≤ g → Carries (parse_next decode f) (parse_next decode g)
parse_next-Carries decode zero g h = record {
  grows = λ offset s more node k e. absurd (no_fuel decode offset s node k e);
  fits = λ offset s node k e. absurd (no_fuel decode offset s node k e);
}
parse_next-Carries decode (suc f) zero h = absurd (omega arith)
parse_next-Carries decode (suc f) (suc g) h =
    let c = parse_next-Carries decode f g (omega arith) in
    record { grows = step_grows decode f g c; fits = step_fits decode f g c }
