-- ===== src/Parser/Reads.antt =====
-- The messages that a buffer reads as, with what is left: `feed` without fuel.
use redis_clone_js.Prelude.{
  ℕ, zero, suc, ◌+◌, ◌<◌, ◌≡◌, refl, ap, sym, ◌∙◌, subst, true, List, [], ◌∷◌, ◌++◌, arith, length,
  drop, length-append,
}
use redis_clone_js.Prelude.Text.{Text}
use redis_clone_js.Parser.Messages.{Node}
use redis_clone_js.Parser.{Bytes, Parsed, parsed, wait, odd, astray, parse_next}
use redis_clone_js.Parser.Extend.{drop-append}
use redis_clone_js.Parser.Steady.{parse_next-Carries, length-drop_le}
use redis_clone_js.Parser.Lengths.{IsPlain, lengths_fit, lengths_fit-drop, parse_next-IsPlain}
use redis_clone_js.Parser.Prefixes.{parse_next-PlainPrefix}
use redis_clone_js.Parser.Feed.{fed, feed_loop, cons_message, after_parse}

-- `_parseNext(0)` of a buffer.
abbrev pub parse_buffer : (Bytes → Text) → Bytes → Parsed
parse_buffer decode buffer = parse_next decode (suc (length buffer)) 0 buffer

pub data Reads (decode : Bytes → Text) : Bytes → List Node → Bytes → Type 0 where
  stops : (buffer : Bytes) → parse_buffer decode buffer ≡ wait → Reads decode buffer [] buffer
  goes_on :
      (buffer : Bytes) (node : Node) (k : ℕ) (nodes : List Node) (left : Bytes)
      → parse_buffer decode buffer ≡ parsed node k
      → Reads decode (drop k buffer) nodes left
      → Reads decode buffer (node ∷ nodes) left

module _ (decode : Bytes → Text) where
  -- A message takes a byte at least, and bytes that are there.
  pub parse_buffer-fits :
      (buffer : Bytes) (node : Node) (k : ℕ)
      → parse_buffer decode buffer ≡ parsed node k
      → (0 < k) × (length (drop k buffer) + k ≡ length buffer)
  parse_buffer-fits buffer node k e =
      let (some_bytes, within) =
        (parse_next-Carries decode (suc (length buffer)) (suc (length buffer)) (omega arith)).fits 0
          buffer node k e in
      (some_bytes, length-drop_le k buffer within)

  parse_buffer-append :
      (buffer more : Bytes) (node : Node) (k : ℕ)
      → parse_buffer decode buffer ≡ parsed node k
      → parse_buffer decode (buffer ++ more) ≡ parsed node k
  parse_buffer-append buffer more node k e =
      (parse_next-Carries decode (suc (length buffer)) (suc (length (buffer ++ more)))
          (omega (arith, length-append buffer more))).grows
        0 buffer more node k e

  -- The loop of `feed` with enough fuel gives what the buffer reads as.
  pub feed_loop-Reads :
      (f : ℕ) (buffer : Bytes) (nodes : List Node) (left : Bytes)
      → length buffer < f
      → Reads decode buffer nodes left
      → feed_loop decode f buffer ≡ fed nodes left
  unfolding feed_loop
  feed_loop-Reads zero buffer nodes left h r = absurd (omega arith)
  feed_loop-Reads (suc f) buffer nodes left h (stops _ e) =
      ap (after_parse (feed_loop decode f) buffer) e
  feed_loop-Reads (suc f) buffer nodes left h (goes_on _ node k nodes' _ e r) =
      let (some_bytes, size) = parse_buffer-fits buffer node k e in
      ap (after_parse (feed_loop decode f) buffer) e
      ∙ ap (cons_message node)
          (feed_loop-Reads f (drop k buffer) nodes' left (omega (arith, some_bytes, size)) r)

  -- What a buffer reads as, with the first bytes read first.
  pub record Split (buffer more : Bytes) (nodes : List Node) (left : Bytes) : Type 0 where
    pub first : List Node
    pub between : Bytes
    pub second : List Node
    pub reads_first : Reads decode buffer first between
    pub reads_second : Reads decode (between ++ more) second left
    pub all : nodes ≡ first ++ second

  plain-Split :
      (buffer more : Bytes) (nodes : List Node) (left : Bytes) (p : Parsed)
      → parse_buffer decode buffer ≡ p
      → IsPlain p
      → Reads decode (buffer ++ more) nodes left
      → ((node : Node) (k : ℕ)
          → parse_buffer decode buffer ≡ parsed node k
          → Split buffer more nodes left)
      → Split buffer more nodes left
  plain-Split buffer more nodes left wait e plain r later = record {
    first = [];
    between = buffer;
    second = nodes;
    reads_first = stops buffer e;
    reads_second = r;
    all = refl;
  }
  plain-Split buffer more nodes left (parsed node k) e plain r later = later node k e
  plain-Split buffer more nodes left (odd node k) e plain r later = elim plain [ ]
  plain-Split buffer more nodes left astray e plain r later = elim plain [ ]

  front-IsPlain :
      (buffer more : Bytes) (p : Parsed)
      → parse_buffer decode (buffer ++ more) ≡ p
      → IsPlain p
      → IsPlain (parse_buffer decode buffer)
  front-IsPlain buffer more p e plain =
      parse_next-PlainPrefix decode (suc (length buffer)) (suc (length (buffer ++ more)))
        (omega (arith, length-append buffer more)) 0 buffer more (omega arith)
        (subst IsPlain (sym e) plain)

  put_in_front :
      (buffer more : Bytes) (node : Node) (k : ℕ) (nodes : List Node) (left : Bytes)
      → parse_buffer decode buffer ≡ parsed node k
      → Split (drop k buffer) more nodes left
      → Split buffer more (node ∷ nodes) left
  put_in_front buffer more node k nodes left e r = record {
    first = node ∷ r.first;
    between = r.between;
    second = r.second;
    reads_first = goes_on buffer node k r.first r.between e r.reads_first;
    reads_second = r.reads_second;
    all = ap (node ∷◌) r.all;
  }

  whole-Split :
      (f : ℕ) (buffer more whole : Bytes) (nodes : List Node) (left : Bytes)
      → whole ≡ buffer ++ more
      → length buffer < f
      → Reads decode whole nodes left
      → Split buffer more nodes left
  whole-Split zero buffer more whole nodes left eq h r = absurd (omega arith)
  whole-Split (suc f) buffer more whole nodes left eq h (stops _ e) =
      let e' : parse_buffer decode (buffer ++ more) ≡ wait =
        subst (λ b. parse_buffer decode b ≡ wait) eq e in
      plain-Split buffer more [] whole (parse_buffer decode buffer) refl
        (front-IsPlain buffer more wait e' tt)
        (subst (λ b. Reads decode b [] whole) eq (stops whole e))
        (λ node k found. absurd (cc (e', parse_buffer-append buffer more node k found)))
  whole-Split (suc f) buffer more whole nodes left eq h (goes_on _ node k nodes' _ e r) =
      let e' : parse_buffer decode (buffer ++ more) ≡ parsed node k =
        subst (λ b. parse_buffer decode b ≡ parsed node k) eq e in
      plain-Split buffer more (node ∷ nodes') left (parse_buffer decode buffer) refl
        (front-IsPlain buffer more (parsed node k) e' tt)
        (subst (λ b. Reads decode b (node ∷ nodes') left) eq (goes_on whole node k nodes' left e r))
        (λ node' k' found.
          let (some_bytes, size) = parse_buffer-fits buffer node' k' found in
          let same_node : node' ≡ node = cc (e', parse_buffer-append buffer more node' k' found) in
          let same_size : k ≡ k' = cc (e', parse_buffer-append buffer more node' k' found) in
          let found' : parse_buffer decode buffer ≡ parsed node k =
            found ∙ cc (same_node, same_size) in
          put_in_front buffer more node k nodes' left found' (
            whole-Split f (drop k buffer) more (drop k whole) nodes' left
              (ap (drop k) eq ∙ drop-append k buffer more (omega (arith, size, same_size)))
              (omega (arith, size, same_size, some_bytes, parse_buffer-fits buffer node k found'))
              r))

  -- Bytes that a buffer reads with, in two parts.
  pub Reads-Split :
      (buffer more : Bytes) (nodes : List Node) (left : Bytes)
      → Reads decode (buffer ++ more) nodes left
      → Split buffer more nodes left
  Reads-Split buffer more nodes left r =
      whole-Split (suc (length buffer)) buffer more (buffer ++ more) nodes left refl (omega arith) r

  abbrev pub ReadsSomehow : Bytes → Type 0
  ReadsSomehow buffer = (nodes : List Node) × (left : Bytes) × Reads decode buffer nodes left

  reads_plain :
      (buffer : Bytes) (p : Parsed)
      → parse_buffer decode buffer ≡ p
      → IsPlain p
      → ((node : Node) (k : ℕ)
          → parse_buffer decode buffer ≡ parsed node k
          → ReadsSomehow (drop k buffer))
      → ReadsSomehow buffer
  reads_plain buffer wait e plain later = ([], buffer, stops buffer e)
  reads_plain buffer (parsed node k) e plain later =
      let (nodes, left, r) = later node k e in
      (node ∷ nodes, left, goes_on buffer node k nodes left e r)
  reads_plain buffer (odd node k) e plain later = elim plain [ ]
  reads_plain buffer astray e plain later = elim plain [ ]

  lengths_fit-Reads :
      (f : ℕ) (buffer : Bytes)
      → length buffer < f
      → lengths_fit decode buffer ≡ true
      → ReadsSomehow buffer
  lengths_fit-Reads zero buffer short h = absurd (omega arith)
  lengths_fit-Reads (suc f) buffer short h =
      reads_plain buffer (parse_buffer decode buffer) refl
        (parse_next-IsPlain decode (suc (length buffer)) 0 buffer (omega arith) h)
        (λ node k e.
          let (some_bytes, size) = parse_buffer-fits buffer node k e in
          lengths_fit-Reads f (drop k buffer) (omega (arith, size, some_bytes))
            (lengths_fit-drop decode k buffer h))

  -- A buffer whose bulk lengths fit reads as some messages.
  pub reads_of : (buffer : Bytes) → lengths_fit decode buffer ≡ true → ReadsSomehow buffer
  reads_of buffer h = lengths_fit-Reads (suc (length buffer)) buffer (omega arith) h
