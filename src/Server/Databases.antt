-- ===== src/Server/Databases.antt =====
-- src/server/Server.js: the logical databases, which are prefixes of the keys.
use redis_clone_js.Prelude.{
  ℕ, Bool, false, not, ◌&&◌, ◌||◌, Option, none, some, List, [], ◌∷◌, ◌++◌, map, ◌==◌,
  if◌then◌else◌,
}
use redis_clone_js.Prelude.Text.{Text, text, text_eq}
use redis_clone_js.Number.{show_ℕ, is_digit, read_digits}
use redis_clone_js.SetOf
use redis_clone_js.Server.Tables.{
  one_key_core, one_key_other, all_keys_commands, two_key_commands, store_commands,
}

-- `_dbPrefix` of a database
unfoldable pub db_prefix : ℕ → Text
unfolding show_ℕ
db_prefix db = text "{db" ++ (show_ℕ db ++ text "}:")

-- x == null ? "" : String(x)
abbrev pub or_empty : Option Text → Text
or_empty none = []
or_empty (some t) = t

-- oneKey(A, 0)
abbrev pub on_first : (Text → Text) → List Text → List Text
on_first f [] = []
on_first f (a ∷ args) = f a ∷ args

-- oneKey(A, 1)
abbrev pub on_second : (Text → Text) → List Text → List Text
on_second f [] = []
on_second f (a ∷ args) = a ∷ on_first f args

-- The arguments at even positions.
unfoldable pub on_even : (Text → Text) → List Text → List Text
on_even f [] = []
on_even f (a ∷ []) = f a ∷ []
on_even f (a ∷ b ∷ args) = f a ∷ b ∷ on_even f args

-- BITOP: all behind the operation.
abbrev pub on_tail : (Text → Text) → List Text → List Text
on_tail f [] = []
on_tail f (a ∷ args) = a ∷ map f args

abbrev pub doc_key_commands : List Text
doc_key_commands = text "DOC.INDEXADD" ∷ text "DOC.INDEXDEL" ∷ text "DOC.INDEXUPDATE" ∷ []

abbrev pub mset_commands : List Text
mset_commands = text "MSET" ∷ text "MSETNX" ∷ []

-- The switch of `_rewriteArgsForDb`; `f` puts the prefix in front.
unfoldable pub rewrite_with : (Text → Text) → Text → List Text → List Text
unfolding SetOf.has on_even
rewrite_with f upper args =
    if SetOf.has one_key_core upper || SetOf.has one_key_other upper
    then on_first f args
    else if text_eq upper (text "BITOP")
    then on_tail f args
    else if SetOf.has two_key_commands upper
    then on_second f (on_first f args)
    else if SetOf.has doc_key_commands upper
    then on_second f args
    else if SetOf.has all_keys_commands upper || SetOf.has store_commands upper
    then map f args
    else if SetOf.has mset_commands upper
    then on_even f args
    else args

-- `_rewriteArgsForDb`
unfoldable pub rewrite_args_for_db : Text → List (Option Text) → ℕ → List Text
unfolding rewrite_with db_prefix
rewrite_args_for_db upper args db = rewrite_with (db_prefix db ++◌) upper (map or_empty args)

-- The digits in front, and what stands behind them.
abbrev take_digit : ℕ → List ℕ × List ℕ → List ℕ × List ℕ
take_digit c (ds, rest) = (c ∷ ds, rest)

unfoldable pub split_digits : Text → List ℕ × List ℕ
unfolding is_digit
split_digits [] = ([], [])
split_digits (c ∷ s) =
    let further = split_digits s in if is_digit c then take_digit c further else ([], c ∷ s)

-- What `.` does not match.
abbrev is_line_end : ℕ → Bool
is_line_end c = c == 10 || (c == 13 || (c == 0x2028 || c == 0x2029))

unfoldable pub has_line_end : Text → Bool
has_line_end [] = false
has_line_end (c ∷ s) = is_line_end c || has_line_end s

-- The end of the match behind the digits.
abbrev pub match_key : List ℕ → Text → Option (ℕ × Text)
match_key [] rest = none
match_key (d ∷ ds) [] = none
match_key (d ∷ ds) (c ∷ []) = none
match_key (d ∷ ds) (c ∷ c' ∷ key) =
    if c == b'}' && (c' == b':' && not (has_line_end key))
    then some (read_digits 0 (d ∷ ds), key)
    else none

-- stored.match(/^\{db(\d+)\}:(.*)$/), with the number read
unfoldable pub match_stored : Text → Option (ℕ × Text)
unfolding split_digits read_digits has_line_end
match_stored (a ∷ b ∷ c ∷ s) =
    if a == b'{' && (b == b'd' && c == b'b')
    then match_key (split_digits s).0 (split_digits s).1
    else none
match_stored _ = none

-- `_extractDbAndKeyFromStoredKey`
abbrev pub or_db_zero : Text → Option (ℕ × Text) → ℕ × Text
or_db_zero stored none = (0, stored)
or_db_zero stored (some r) = r

unfoldable pub extract_db_and_key_from_stored_key : Text → ℕ × Text
unfolding match_stored
extract_db_and_key_from_stored_key stored = or_db_zero stored (match_stored stored)
