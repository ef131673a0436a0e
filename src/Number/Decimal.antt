-- ===== src/Number/Decimal.antt =====
-- Reading back what was printed.
use redis_clone_js.Prelude.{
  ℕ, zero, suc, ◌+◌, ◌-◌, ◌*◌, ◌/◌, ◌%◌, ◌<◌, ◌≡◌, inl, inr, true, some, ap, ◌∙◌, [], ◌∷◌, arith,
  ltb, Bool-cases,
}
use redis_clone_js.Prelude.Text.{Text}
use redis_clone_js.Prelude.Int.{ℤ, pos, negsuc}
use redis_clone_js.Number.{
  is_digit, skip_spaces, read_digits, unsigned, signed, parse_int, digits, show_ℕ, show_ℤ, positive,
  negative,
}

read_digits-cons :
    (v c : ℕ) (s : Text)
    → is_digit c ≡ true
    → read_digits v (c ∷ s) ≡ read_digits (v * 10 + (c - b'0')) s
unfolding read_digits
read_digits-cons v c s h = rw (h, read_digits)

-- The digits in front of `acc` stand for `n`.
pub read_digits-digits :
    (f n : ℕ) (acc : Text) → n < f → read_digits 0 (digits f n acc) ≡ read_digits n acc
unfolding digits is_digit
read_digits-digits zero n acc h = elim h [ ]
read_digits-digits (suc f) n acc h = ground (
  arith,
  read_digits-cons 0 (b'0' + n) acc,
  read_digits-digits f (n / 10) ((b'0' + n % 10) ∷ acc),
  read_digits-cons (n / 10) (b'0' + n % 10) acc,
)

abbrev pub StartsWithDigit : Text → Type 0
StartsWithDigit [] = ⊥
StartsWithDigit (c ∷ s) = is_digit c ≡ true

digits-StartsWithDigit :
    (f n : ℕ) (acc : Text) → StartsWithDigit acc → StartsWithDigit (digits f n acc)
unfolding digits is_digit
digits-StartsWithDigit zero n acc h = h
digits-StartsWithDigit (suc f) n acc h = elim (Bool-cases (ltb n 10)) [
  | inl small ↦ rw small (ground arith)
  | inr large ↦ rw large (digits-StartsWithDigit f (n / 10) _ (ground arith))
]

pub show_ℕ-StartsWithDigit : (n : ℕ) → StartsWithDigit (show_ℕ n)
unfolding show_ℕ is_digit
show_ℕ-StartsWithDigit n = elim (Bool-cases (ltb n 10)) [
  | inl small ↦ rw small (ground arith)
  | inr large ↦ rw large (digits-StartsWithDigit n (n / 10) _ (ground arith))
]

unsigned-read : (s : Text) → StartsWithDigit s → unsigned s ≡ some (read_digits 0 s)
unfolding unsigned
unsigned-read [] h = elim h [ ]
unsigned-read (c ∷ s) h = ground (arith, read_digits-cons 0 c s)

unsigned-show_ℕ : (n : ℕ) → unsigned (show_ℕ n) ≡ some n
unfolding show_ℕ read_digits
unsigned-show_ℕ n =
    unsigned-read (show_ℕ n) (show_ℕ-StartsWithDigit n)
    ∙ ap some (read_digits-digits (suc n) n [] (omega arith))

signed-digit :
    (s : Text) → StartsWithDigit s → skip_spaces s ≡ s × (signed s ≡ positive (unsigned s))
unfolding signed skip_spaces is_digit
signed-digit [] h = elim h [ ]
signed-digit (c ∷ s) h = ground arith

-- parseInt(String(n), 10) is n.
pub parse_int-show_ℤ : (n : ℤ) → parse_int (show_ℤ n) ≡ some n
unfolding parse_int
parse_int-show_ℤ (pos n) =
    let h = signed-digit (show_ℕ n) (show_ℕ-StartsWithDigit n) in
    unfold show_ℤ in rw h.0 (h.1 ∙ ap positive (unsigned-show_ℕ n))
parse_int-show_ℤ (negsuc n) =
    unfold show_ℤ skip_spaces signed in ap negative (unsigned-show_ℕ (suc n))
