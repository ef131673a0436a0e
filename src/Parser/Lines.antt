-- ===== src/Parser/Lines.antt =====
-- Lemmas on the parsers of src/core/protocol.js other than that of arrays, with more input behind
-- a message.
use redis_clone_js.Prelude.{ℕ, ◌+◌, ◌≡◌, Option, [], ◌∷◌, arith, length, Option-cases, inl, inr}
use redis_clone_js.Prelude.Text.{Text}
use redis_clone_js.Prelude.Int.{ℤ}
use redis_clone_js.Number.{parse_int}
use redis_clone_js.Parser.Messages.{Node, simple, error}
use redis_clone_js.Parser.{
  Bytes, parsed, split_line, parse_bulk_string, parse_integer, parse_simple_string, parse_error,
  parse_unknown, integer_of, unknown_of, error_message,
}
use redis_clone_js.Parser.Extend.{
  IsSteady, split_line-append, length-split_line, with_line-IsSteady, fixed-IsSteadyLine,
  bulk_of_length-IsSteadyLine, IsSteadyLine,
}

module _ (decode : Bytes → Text) where
  pub bulk-IsSteady : (offset : ℕ) → IsSteady 1 (parse_bulk_string decode offset)
  unfolding parse_bulk_string
  bulk-IsSteady offset =
      with_line-IsSteady _
        (bulk_of_length-IsSteadyLine decode offset (λ line. parse_int (decode line)))

  pub simple-IsSteady : IsSteady 1 (parse_simple_string decode)
  unfolding parse_simple_string
  simple-IsSteady = with_line-IsSteady _ (fixed-IsSteadyLine decode (λ line. simple (decode line)))

  pub error-IsSteady : IsSteady 1 (parse_error decode)
  unfolding parse_error
  error-IsSteady =
      with_line-IsSteady _ (fixed-IsSteadyLine decode (λ line. error (error_message (decode line))))

  integer-IsSteadyLine :
      (o : Bytes → Option ℤ) → IsSteadyLine (λ line rest. integer_of line (o line))
  integer-IsSteadyLine o = record {
    grows = λ line rest more node k e. e;
    fits = λ line rest node k e. ground arith;
  }

  pub integer-IsSteady : IsSteady 1 (parse_integer decode)
  unfolding parse_integer
  integer-IsSteady = with_line-IsSteady _ (integer-IsSteadyLine (λ line. parse_int (decode line)))

  unknown-fits :
      (prefix : ℕ) (line : Bytes) (t : Text) (node : Node) (k : ℕ)
      → unknown_of prefix line t ≡ parsed node k
      → k ≡ length line + 2
  unknown-fits prefix line [] node k e = absurd (ground arith)
  unknown-fits prefix line (_ ∷ _) node k e = ground arith

  pub unknown-IsSteady : (prefix : ℕ) → IsSteady 0 (parse_unknown decode prefix)
  unfolding parse_unknown
  unknown-IsSteady prefix = record {
    grows = λ s more node k e. elim (Option-cases (split_line s)) [
      | inl stuck ↦ absurd (ground arith)
      | inr ((line, rest), found) ↦ rw (split_line-append s more line rest found) (ground arith)
    ];
    fits = λ s node k e. elim (Option-cases (split_line s)) [
      | inl stuck ↦ absurd (ground arith)
      | inr ((line, rest), found) ↦ ground (
        arith,
        unknown-fits prefix line (decode line) node k,
        length-split_line s line rest found,
      )
    ];
  }
