-- ===== src/Strings/Exact.antt =====
-- INCR, DECR, INCRBY and DECRBY on safe integers.
use redis_clone_js.Prelude.{
  ℕ, zero, suc, ◌+◌, ◌/◌, ◌%◌, ◌^◌, ◌≡◌, refl, true, some, [], ◌∷◌, arith, ap, ◌∙◌,
}
use redis_clone_js.Prelude.Text.{Text}
use redis_clone_js.Prelude.Int.{ℤ, pos, negsuc}
use redis_clone_js.Number.{
  is_digit, read_digits, digits, show_ℕ, show_ℤ, negate, Doubles, IsSafe, IsExact,
}
use redis_clone_js.Number.Decimal.{StartsWithDigit, show_ℕ-StartsWithDigit, read_digits-digits}
use redis_clone_js.Strings.Counter.{
  all_digits, integer_text, min_int64, max_int64, in_range, parse_integer_strict,
}

all_digits-digits :
    (f n : ℕ) (acc : Text) → all_digits acc ≡ true → all_digits (digits f n acc) ≡ true
unfolding digits all_digits is_digit
all_digits-digits zero n acc h = h
all_digits-digits (suc f) n acc h =
    ground (arith, all_digits-digits f (n / 10) ((b'0' + n % 10) ∷ acc))

integer_text-digits :
    (s : Text)
    → StartsWithDigit s
    → all_digits s ≡ true
    → integer_text s ≡ some (pos (read_digits 0 s))
unfolding integer_text all_digits is_digit
integer_text-digits [] h k = elim h [ ]
integer_text-digits (c ∷ []) h k = ground arith
integer_text-digits (c ∷ d ∷ s) h k = ground arith

integer_text-minus :
    (s : Text)
    → StartsWithDigit s
    → all_digits s ≡ true
    → integer_text (b'-' ∷ s) ≡ some (negate (read_digits 0 s))
unfolding integer_text all_digits is_digit
integer_text-minus [] h k = elim h [ ]
integer_text-minus (d ∷ s) h k = rw k refl

pub show_ℕ-all_digits : (n : ℕ) → all_digits (show_ℕ n) ≡ true
unfolding show_ℕ
show_ℕ-all_digits n = all_digits-digits (suc n) n [] (unfold all_digits in refl)

read_digits-show_ℕ : (n : ℕ) → read_digits 0 (show_ℕ n) ≡ n
unfolding show_ℕ read_digits
read_digits-show_ℕ n = read_digits-digits (suc n) n [] (omega arith)

-- The text of an integer is read back as that integer.
pub integer_text-show_ℤ : (n : ℤ) → integer_text (show_ℤ n) ≡ some n
unfolding show_ℤ
integer_text-show_ℤ (pos n) =
    integer_text-digits (show_ℕ n) (show_ℕ-StartsWithDigit n) (show_ℕ-all_digits n)
    ∙ ap (λ k. some (pos k)) (read_digits-show_ℕ n)
integer_text-show_ℤ (negsuc n) =
    integer_text-minus (show_ℕ (suc n)) (show_ℕ-StartsWithDigit (suc n)) (show_ℕ-all_digits (suc n))
    ∙ ap (λ k. some (negate k)) (read_digits-show_ℕ (suc n))

in_range_safe : (n : ℤ) → IsSafe n → in_range min_int64 max_int64 n ≡ true
unfolding in_range
in_range_safe (pos n) h = ground (arith, h.0)
in_range_safe (negsuc n) h = ground (arith, h.1)

pub sum_in_range : (n : ℤ) → IsSafe n → in_range min_int64 (pos (2 ^ 63)) n ≡ true
unfolding in_range
sum_in_range (pos n) h = ground (arith, h.0)
sum_in_range (negsuc n) h = ground (arith, h.1)

-- A safe integer's text is read back exactly, although it goes through doubles.
pub parse_integer_strict-show_ℤ :
    (d : Doubles) (n : ℤ) → IsExact d → IsSafe n → parse_integer_strict d (show_ℤ n) ≡ some n
unfolding parse_integer_strict
parse_integer_strict-show_ℤ d n exact safe =
    rw (integer_text-show_ℤ n, parse_integer_strict)
      (rw (in_range_safe n safe) (ap some (exact.to_number_safe n safe)))
