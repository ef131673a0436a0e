-- ===== src/Keyspace/Options.antt =====
-- src/core/DataStore.js: the options of SET, the `while` loop of `_set`.
use redis_clone_js.Prelude.{ℕ, Bool, true, false, Option, none, some, List, [], ◌∷◌, if◌then◌else◌}
use redis_clone_js.Prelude.Text.{Text, text, text_eq, to_upper}
use redis_clone_js.Prelude.Int.{ℤ, pos, ◌+ℤ◌, ◌*ℤ◌, ltb_ℤ}
use redis_clone_js.Number.{parse_int}

pub record SetOptions : Type 0 where
  pub nx : Bool
  pub xx : Bool
  pub keep_ttl : Bool
  pub get_opt : Bool
  pub expire_at : Option ℤ

abbrev pub no_options : SetOptions
no_options = record { nx = false; xx = false; keep_ttl = false; get_opt = false; expire_at = none }

pub data SetArgs : Type 0 where
  accepted : SetOptions → SetArgs
  rejected : Text → SetArgs

-- The options that take no value; `none` for any other word.
unfoldable pub set_flag : Text → SetOptions → Option SetOptions
set_flag opt o =
    if text_eq opt (text "NX")
    then some (record o { nx = true })
    else if text_eq opt (text "XX")
    then some (record o { xx = true })
    else if text_eq opt (text "GET")
    then some (record o { get_opt = true })
    else if text_eq opt (text "KEEPTTL")
    then some (record o { keep_ttl = true })
    else none

abbrev map_option : {A B : Type 0} → (A → B) → Option A → Option B
map_option f none = none
map_option f (some a) = some (f a)

-- A number that is finite and above 0.
unfoldable pub positive_int : Option ℤ → Option ℤ
positive_int none = none
positive_int (some n) = if ltb_ℤ (pos 0) n then some n else none

-- The options that set a deadline: `none` for another word, `some none` for a bad number.
unfoldable pub set_deadline : ℕ → Text → Text → Option (Option ℤ)
unfolding positive_int
set_deadline now opt arg =
    if text_eq opt (text "EX")
    then some (map_option (λ n. pos now +ℤ n *ℤ pos 1000) (positive_int (parse_int arg)))
    else if text_eq opt (text "PX")
    then some (map_option (λ n. pos now +ℤ n) (positive_int (parse_int arg)))
    else if text_eq opt (text "EXAT")
    then some (map_option (λ n. n *ℤ pos 1000) (parse_int arg))
    else if text_eq opt (text "PXAT")
    then some (parse_int arg)
    else none

unfoldable pub set_options : ℕ → SetOptions → List Text → SetArgs
unfolding set_flag set_deadline
set_options now o [] = accepted o
set_options now o (opt ∷ []) = elim (set_flag (to_upper opt) o) [
  | Option.some o' ↦ accepted o'
  | Option.none ↦ rejected (text "syntax error")
]
set_options now o (opt ∷ arg ∷ rest) = elim (set_flag (to_upper opt) o) [
  | Option.some o' ↦ set_options now o' (arg ∷ rest)
  | Option.none ↦ elim (set_deadline now (to_upper opt) arg) [
    | Option.none ↦ rejected (text "syntax error")
    | Option.some Option.none ↦ rejected (text "value is not an integer or out of range")
    | Option.some (Option.some at) ↦ set_options now (record o { expire_at = some at }) rest
  ]
]
