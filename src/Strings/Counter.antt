-- ===== src/Strings/Counter.antt =====
-- src/core/DataStore.js: INCR, DECR, INCRBY, DECRBY.
use redis_clone_js.Prelude.{
  ℕ, ◌-◌, ◌^◌, Bool, true, not, ◌&&◌, ◌||◌, Option, none, some, List, [], ◌∷◌, ◌==◌, if◌then◌else◌,
}
use redis_clone_js.Prelude.Text.{Text}
use redis_clone_js.Prelude.Int.{ℤ, pos, negsuc, ◌-ℤ◌, ltb_ℤ}
use redis_clone_js.Number.{is_digit, read_digits, negate, Doubles}
use redis_clone_js.Cmd.{modify, given, ◌>>=◌, ◌>>◌}
use redis_clone_js.Protocol.{encode_shown}
use redis_clone_js.Store.{
  Entry, str, Handler, reply, fail, not_an_integer, to_string, assign, get_or_init_string,
}

unfoldable pub all_digits : Text → Bool
unfolding is_digit
all_digits [] = true
all_digits (c ∷ s) = is_digit c && all_digits s

-- The integer that a text of the form /^-?\d+$/ stands for (`BigInt(str)`), and `none` for others.
unfoldable pub integer_text : Text → Option ℤ
unfolding all_digits read_digits
integer_text [] = none
integer_text (c ∷ []) = if is_digit c then some (pos (read_digits 0 (c ∷ []))) else none
integer_text (c ∷ d ∷ s) =
    if c == b'-' && all_digits (d ∷ s)
    then some (negate (read_digits 0 (d ∷ s)))
    else if all_digits (c ∷ d ∷ s)
    then some (pos (read_digits 0 (c ∷ d ∷ s)))
    else none

abbrev pub min_int64 : ℤ
min_int64 = negsuc (2 ^ 63 - 1)

abbrev pub max_int64 : ℤ
max_int64 = pos (2 ^ 63 - 1)

unfoldable pub in_range : ℤ → ℤ → ℤ → Bool
in_range low high n = not (ltb_ℤ n low || ltb_ℤ high n)

-- The literals of `_parseIntegerStrict` are exact.
unfoldable pub parse_integer_strict : Doubles → Text → Option ℤ
unfolding in_range integer_text
parse_integer_strict d s = elim (integer_text s) [
  | Option.none ↦ none
  | Option.some n ↦ if in_range min_int64 max_int64 n then some (d.to_number n) else none
]

-- The text of the entry as a number; the empty text counts as 0.
unfoldable pub current : Doubles → Text → Option ℤ
unfolding parse_integer_strict
current d [] = some (pos 0)
current d (c ∷ s) = parse_integer_strict d (c ∷ s)

module _ {Score : Type 0} (d : Doubles) where
  -- The limits here are doubles: the upper one, 2 ^ 63 - 1, is read as 2 ^ 63.
  unfoldable pub add_to_entry : Text → ℤ → Entry Score → Handler Score
  unfolding current in_range
  add_to_entry key amount entry = given (current d (to_string entry.value)) not_an_integer (λ cur.
      let next = d.add cur amount in
      if in_range min_int64 (pos (2 ^ 63)) next
      then (do modify (assign key entry (str (d.show next))); reply (encode_shown (d.show next)))
      else not_an_integer)

  unfoldable pub apply_incr_by : ℕ → Text → ℤ → Handler Score
  unfolding add_to_entry
  apply_incr_by now key amount = do
    entry ← get_or_init_string now key
    add_to_entry key amount entry

  unfoldable pub incr : ℕ → List Text → Handler Score
  unfolding apply_incr_by
  incr now (key ∷ []) = apply_incr_by now key (pos 1)
  incr now _ = fail "wrong number of arguments for 'INCR'"

  unfoldable pub decr : ℕ → List Text → Handler Score
  unfolding apply_incr_by
  decr now (key ∷ []) = apply_incr_by now key (negsuc 0)
  decr now _ = fail "wrong number of arguments for 'DECR'"

  unfoldable pub incrby : ℕ → List Text → Handler Score
  unfolding apply_incr_by parse_integer_strict
  incrby now (key ∷ by ∷ []) =
      given (parse_integer_strict d by) not_an_integer (λ n. apply_incr_by now key n)
  incrby now _ = fail "wrong number of arguments for 'INCRBY'"

  unfoldable pub decrby : ℕ → List Text → Handler Score
  unfolding apply_incr_by parse_integer_strict
  decrby now (key ∷ by ∷ []) =
      given (parse_integer_strict d by) not_an_integer (λ n. apply_incr_by now key (pos 0 -ℤ n))
  decrby now _ = fail "wrong number of arguments for 'DECRBY'"
