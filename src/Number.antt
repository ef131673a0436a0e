-- ===== src/Number.antt =====
-- Numbers and their text: `parseInt(s, 10)`, `String(n)` of an integer, and `Number.isFinite`.
-- Numbers are exact integers; JavaScript's doubles agree while the magnitude stays below 2 ^ 53.
pub mod Decimal
use redis_clone_js.Prelude.{
  ℕ, zero, suc, ◌+◌, ◌-◌, ◌*◌, ◌/◌, ◌%◌, Bool, ◌&&◌, ◌||◌, Option, none, some, List, [], ◌∷◌, ltb,
  leb, ◌==◌, if◌then◌else◌, ◌≡◌, true, false, ◌<◌, ◌^◌,
}
use redis_clone_js.Prelude.Text.{Text, text}
use redis_clone_js.Prelude.Int.{ℤ, pos, negsuc, pos_part, neg_part, ◌+ℤ◌}

unfoldable pub is_digit : ℕ → Bool
is_digit c = leb b'0' c && leb c b'9'

-- The white space and line ends that `parseInt` skips.
unfoldable pub is_space : ℕ → Bool
is_space c =
    (leb 9 c && leb c 13)
    || c == 32
    || c == 0xa0
    || c == 0x1680
    || (leb 0x2000 c && leb c 0x200a)
    || c == 0x2028
    || c == 0x2029
    || c == 0x202f
    || c == 0x205f
    || c == 0x3000
    || c == 0xfeff

unfoldable pub skip_spaces : Text → Text
unfolding is_space
skip_spaces [] = []
skip_spaces (c ∷ s) = let rest = skip_spaces s in if is_space c then rest else c ∷ s

-- The value of the leading digits, after `v`.
unfoldable pub read_digits : ℕ → Text → ℕ
unfolding is_digit
read_digits v [] = v
read_digits v (c ∷ s) = elim (is_digit c) [
  | Bool.true ↦ read_digits (v * 10 + (c - b'0')) s
  | Bool.false ↦ v
]

-- `none` for NaN: no digit stands at the start.
unfoldable pub unsigned : Text → Option ℕ
unfolding is_digit read_digits
unsigned [] = none
unsigned (c ∷ s) = if is_digit c then some (read_digits (c - b'0') s) else none

abbrev pub negate : ℕ → ℤ
negate zero = pos zero
negate (suc n) = negsuc n

abbrev pub positive : Option ℕ → Option ℤ
positive none = none
positive (some n) = some (pos n)

abbrev pub negative : Option ℕ → Option ℤ
negative none = none
negative (some n) = some (negate n)

unfoldable pub signed : Text → Option ℤ
unfolding unsigned
signed [] = none
signed (c ∷ s) =
    if c == b'-'
    then negative (unsigned s)
    else if c == b'+'
    then positive (unsigned s)
    else positive (unsigned (c ∷ s))

-- parseInt(s, 10), with `none` for NaN, and the exact integer otherwise: of 309 digits and more, where
-- JavaScript has a number of another value or Infinity, it is the number that the text spells.
unfoldable pub parse_int : Text → Option ℤ
unfolding skip_spaces signed
parse_int s = signed (skip_spaces s)

-- The decimal digits of `n` in front of `acc`. The fuel is the number of divisions allowed.
unfoldable pub digits : ℕ → ℕ → Text → Text
digits zero n acc = acc
digits (suc f) n acc =
    let rest = digits f (n / 10) ((b'0' + n % 10) ∷ acc) in
    if ltb n 10 then (b'0' + n) ∷ acc else rest

-- String(n)
unfoldable pub show_ℕ : ℕ → Text
unfolding digits
show_ℕ n = digits (suc n) n []

unfoldable pub show_ℤ : ℤ → Text
unfolding show_ℕ
show_ℤ (pos n) = show_ℕ n
show_ℤ (negsuc n) = b'-' ∷ show_ℕ (suc n)

-- The doubles that stand for integers: `Number(n)` of a BigInt, their sum, and `String(n)`.
pub record Doubles : Type 0 where
  pub to_number : ℤ → ℤ
  pub add : ℤ → ℤ → ℤ
  pub show : ℤ → Text

-- The integers that doubles represent without a gap: their magnitude is below 2 ^ 53.
abbrev pub IsSafe : ℤ → Type 0
IsSafe n = (pos_part n < 2 ^ 53) × (neg_part n < 2 ^ 53)

-- On safe integers JavaScript's arithmetic is exact.
pub record IsExact (d : Doubles) : Type 0 where
  pub to_number_safe : (n : ℤ) → IsSafe n → d.to_number n ≡ n
  pub add_safe : (a b : ℤ) → IsSafe a → IsSafe b → IsSafe (a +ℤ b) → d.add a b ≡ a +ℤ b
  pub show_safe : (n : ℤ) → IsSafe n → d.show n ≡ show_ℤ n

-- The doubles that are not NaN, with the two zeros as one: `parseFloat` (`none` where its result
-- is not finite), `String(x)`, the sum, `<` and the constants.
pub record Floats (Score : Type 0) : Type 0 where
  pub parse : Text → Option Score
  pub show : Score → Text
  pub add : Score → Score → Score
  pub zero_score : Score
  pub infinity : Score
  pub minus_infinity : Score
  pub lt : Score → Score → Bool

-- `<` is a strict total order.
pub record IsOrdered {Score : Type 0} (f : Floats Score) : Type 0 where
  pub lt_irrefl : (a : Score) → f.lt a a ≡ false
  pub lt_trans : (a b c : Score) → f.lt a b ≡ true → f.lt b c ≡ true → f.lt a c ≡ true
  pub eq_of_not_lt : (a b : Score) → f.lt a b ≡ false → f.lt b a ≡ false → a ≡ b
