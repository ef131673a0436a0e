-- ===== src/Prelude/Text.antt =====
-- JavaScript strings: lists of UTF-16 code units. Source literals are written `text "…"`.
use Prim.Native.Char.{code}
use redis_clone_js.Prelude.{
  ℕ, ◌+◌, ◌-◌, ◌≡◌, refl, ◌≢◌, ◌↔◌, Bool, true, false, ◌&&◌, List, [], ◌∷◌, map, arith, ltb, leb,
  ◌==◌, if◌then◌else◌, String,
}

abbrev pub Text : Type 0
Text = List ℕ

-- The code units of a literal; every literal of the source is ASCII.
abbrev pub text : String → Text
text String.[] = []
text (String.◌∷◌ c s) = code c ∷ text s

-- `a === b` on strings.
unfoldable pub text_eq : Text → Text → Bool
text_eq [] [] = true
text_eq [] (_ ∷ _) = false
text_eq (_ ∷ _) [] = false
text_eq (x ∷ xs) (y ∷ ys) = (x == y) && text_eq xs ys

-- `a < b` on strings: by code units, a proper prefix first.
unfoldable pub text_lt : Text → Text → Bool
text_lt [] [] = false
text_lt [] (_ ∷ _) = true
text_lt (_ ∷ _) [] = false
text_lt (x ∷ xs) (y ∷ ys) = if x == y then text_lt xs ys else ltb x y

-- `toUpperCase` on ASCII; other characters are kept.
unfoldable pub upper_unit : ℕ → ℕ
upper_unit c = if leb b'a' c && leb c b'z' then c - 32 else c

unfoldable pub to_upper : Text → Text
unfolding upper_unit
to_upper = map upper_unit

-- `toLowerCase` on ASCII
unfoldable pub lower_unit : ℕ → ℕ
lower_unit c = if leb b'A' c && leb c b'Z' then c + 32 else c

unfoldable pub to_lower : Text → Text
unfolding lower_unit
to_lower = map lower_unit

pub text_eq_refl : (s : Text) → text_eq s s ≡ true
unfolding text_eq
text_eq_refl [] = refl
text_eq_refl (x ∷ s) = ground (arith, text_eq_refl s)

pub eq_of_text_eq : (s t : Text) → text_eq s t ≡ true → s ≡ t
unfolding text_eq
eq_of_text_eq [] [] h = refl
eq_of_text_eq [] (_ ∷ _) h = cc
eq_of_text_eq (_ ∷ _) [] h = cc
eq_of_text_eq (x ∷ s) (y ∷ t) h = ground (arith, eq_of_text_eq s t)

pub text_eq_iff : (s t : Text) → (text_eq s t ≡ true) ↔ (s ≡ t)
text_eq_iff s t = (eq_of_text_eq s t, λ e. ground (arith, text_eq_refl s))

pub text_eq_comm : (s t : Text) → text_eq s t ≡ text_eq t s
text_eq_comm s t = ground (arith, text_eq_iff s t, text_eq_iff t s)

pub text_eq_of_ne : (s t : Text) → s ≢ t → text_eq s t ≡ false
text_eq_of_ne s t h = ground (arith, text_eq_iff s t)

pub text_lt_irrefl : (s : Text) → text_lt s s ≡ false
unfolding text_lt
text_lt_irrefl [] = refl
text_lt_irrefl (x ∷ s) = ground (arith, text_lt_irrefl s)

pub text_lt_trans : (s t u : Text) → text_lt s t ≡ true → text_lt t u ≡ true → text_lt s u ≡ true
unfolding text_lt
text_lt_trans [] [] u h k = cc
text_lt_trans [] (_ ∷ _) [] h k = cc
text_lt_trans [] (_ ∷ _) (_ ∷ _) h k = refl
text_lt_trans (_ ∷ _) [] u h k = cc
text_lt_trans (_ ∷ _) (_ ∷ _) [] h k = cc
text_lt_trans (x ∷ s) (y ∷ t) (z ∷ u) h k = ground (arith, text_lt_trans s t u)

pub eq_of_not_text_lt : (s t : Text) → text_lt s t ≡ false → text_lt t s ≡ false → s ≡ t
unfolding text_lt
eq_of_not_text_lt [] [] h k = refl
eq_of_not_text_lt [] (_ ∷ _) h k = cc
eq_of_not_text_lt (_ ∷ _) [] h k = cc
eq_of_not_text_lt (x ∷ s) (y ∷ t) h k = ground (arith, eq_of_not_text_lt s t)

upper_set : to_upper (text "kEepTtl") ≡ text "KEEPTTL"
unfolding to_upper
upper_set = refl
