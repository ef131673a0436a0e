-- ===== src/Parser/Extend.antt =====
-- Lemmas on the lines and lengths of src/core/protocol.js, with more input behind them.
use redis_clone_js.Prelude.{
  ℕ, zero, suc, ◌+◌, ◌≤◌, ◌<◌, ◌≡◌, refl, ap, Option, none, some, List, [], ◌∷◌, ◌++◌, arith,
  length, take, drop, Option-cases, inl, inr, length-append,
}
use redis_clone_js.Prelude.Text.{Text}
use redis_clone_js.Prelude.Int.{ℤ, pos, negsuc}
use redis_clone_js.Parser.Messages.{Node}
use redis_clone_js.Parser.{
  Bytes, Parsed, parsed, split_line, header, bulk_content, bulk_negative, bulk_of_length, with_line,
}

pub split_line-append :
    (s more line rest : Bytes)
    → split_line s ≡ some (line, rest)
    → split_line (s ++ more) ≡ some (line, rest ++ more)
unfolding split_line
split_line-append [] more line rest h = cc
split_line-append (x ∷ []) more line rest h = cc
split_line-append (x ∷ y ∷ s) more line rest h = elim (Option-cases (split_line (y ∷ s))) [
  | inl stuck ↦ ground arith
  | inr ((line', rest'), e) ↦ ground (arith, split_line-append (y ∷ s) more line' rest' e)
]

pub length-split_line :
    (s line rest : Bytes)
    → split_line s ≡ some (line, rest)
    → length s ≡ length line + 2 + length rest
unfolding split_line
length-split_line [] line rest h = cc
length-split_line (x ∷ []) line rest h = cc
length-split_line (x ∷ y ∷ s) line rest h = elim (Option-cases (split_line (y ∷ s))) [
  | inl stuck ↦ ground arith
  | inr ((line', rest'), e) ↦ ground (arith, length-split_line (y ∷ s) line' rest' e)
]

-- A parser of what stands behind `extra` bytes: a message that it finds takes bytes that are there,
-- one at least, and stays the same with more input behind it.
pub record IsSteady (extra : ℕ) (p : Bytes → Parsed) : Type 0 where
  pub grows :
      (s more : Bytes) (node : Node) (k : ℕ) → p s ≡ parsed node k → p (s ++ more) ≡ parsed node k
  pub fits :
      (s : Bytes) (node : Node) (k : ℕ) → p s ≡ parsed node k → (0 < k) × (k ≤ length s + extra)

-- The same for what is done with a line: `line` and CRLF stand in front of `rest`.
pub record IsSteadyLine (f : Bytes → Bytes → Parsed) : Type 0 where
  pub grows :
      (line rest more : Bytes) (node : Node) (k : ℕ)
      → f line rest ≡ parsed node k
      → f line (rest ++ more) ≡ parsed node k
  pub fits :
      (line rest : Bytes) (node : Node) (k : ℕ)
      → f line rest ≡ parsed node k
      → (0 < k) × (k ≤ length line + length rest + 3)

pub with_line-IsSteady :
    (f : Bytes → Bytes → Parsed) → IsSteadyLine f → IsSteady 1 (λ s. with_line s f)
with_line-IsSteady f l = record {
  grows = λ s more node k e. elim (Option-cases (split_line s)) [
    | inl stuck ↦ absurd (ground arith)
    | inr ((line, rest), found) ↦
        rw (split_line-append s more line rest found)
          (ground (arith, l.grows line rest more node k))
  ];
  fits = λ s node k e. elim (Option-cases (split_line s)) [
    | inl stuck ↦ absurd (ground arith)
    | inr ((line, rest), found) ↦
        ground (arith, l.fits line rest node k, length-split_line s line rest found)
  ];
}

take-append : {A : Type 0} (n : ℕ) (xs ys : List A) → n ≤ length xs → take n (xs ++ ys) ≡ take n xs
take-append zero xs ys h = refl
take-append (suc n) [] ys h = absurd (omega arith)
take-append (suc n) (x ∷ xs) ys h = ap (x ∷◌) (take-append n xs ys (omega arith))

pub drop-append :
    {A : Type 0} (n : ℕ) (xs ys : List A) → n ≤ length xs → drop n (xs ++ ys) ≡ drop n xs ++ ys
drop-append zero xs ys h = refl
drop-append (suc n) [] ys h = absurd (omega arith)
drop-append (suc n) (x ∷ xs) ys h = drop-append n xs ys (omega arith)

module _ (decode : Bytes → Text) where
  bulk_content-IsSteadyLine :
      (n : ℕ) → IsSteadyLine (λ line rest. bulk_content decode (header line) n rest)
  unfolding bulk_content
  bulk_content-IsSteadyLine n = record {
    grows =
        λ line rest more node k e. ground (arith, take-append n rest more, length-append rest more);
    fits = λ line rest node k e. ground arith;
  }

  bulk_negative-IsSteadyLine :
      (offset n : ℕ) → IsSteadyLine (λ line rest. bulk_negative decode offset (header line) n rest)
  unfolding bulk_negative
  bulk_negative-IsSteadyLine offset n = record {
    grows = λ line rest more node k e. ground arith;
    fits = λ line rest node k e. ground arith;
  }

  -- What is found by the line alone.
  pub fixed-IsSteadyLine :
      (node : Bytes → Node) → IsSteadyLine (λ line rest. parsed (node line) (header line))
  fixed-IsSteadyLine node = record {
    grows = λ line rest more n k e. e;
    fits = λ line rest n k e. ground arith;
  }

  pub bulk_of_length-IsSteadyLine :
      (offset : ℕ) (o : Bytes → Option ℤ)
      → IsSteadyLine (λ line rest. bulk_of_length decode offset line rest (o line))
  bulk_of_length-IsSteadyLine offset o = record {
    grows = λ line rest more node k e. bulk_grows line rest more node k (o line) e;
    fits = λ line rest node k e. bulk_fits line rest node k (o line) e;
  }
    where
      bulk_grows :
          (line rest more : Bytes) (node : Node) (k : ℕ) (m : Option ℤ)
          → bulk_of_length decode offset line rest m ≡ parsed node k
          → bulk_of_length decode offset line (rest ++ more) m ≡ parsed node k
      bulk_grows line rest more node k none e = e
      bulk_grows line rest more node k (some (pos n)) e =
          (bulk_content-IsSteadyLine n).grows line rest more node k e
      bulk_grows line rest more node k (some (negsuc zero)) e = e
      bulk_grows line rest more node k (some (negsuc (suc n))) e =
          (bulk_negative-IsSteadyLine offset n).grows line rest more node k e

      bulk_fits :
          (line rest : Bytes) (node : Node) (k : ℕ) (m : Option ℤ)
          → bulk_of_length decode offset line rest m ≡ parsed node k
          → (0 < k) × (k ≤ length line + length rest + 3)
      bulk_fits line rest node k none e = ground arith
      bulk_fits line rest node k (some (pos n)) e =
          (bulk_content-IsSteadyLine n).fits line rest node k e
      bulk_fits line rest node k (some (negsuc zero)) e = ground arith
      bulk_fits line rest node k (some (negsuc (suc n))) e =
          (bulk_negative-IsSteadyLine offset n).fits line rest node k e
