-- ===== src/Strings.antt =====
-- src/core/DataStore.js: the string commands (APPEND, STRLEN, INCR…, GETRANGE, SETRANGE, MGET, MSET,
-- SETNX, MSETNX, SETEX, GETSET, GETDEL, GETEX, INCRBYFLOAT, SUBSTR).
pub mod Range
pub mod Positions
pub mod Counter
pub mod Exact
pub mod Increment
pub mod Append
pub mod Exchange
pub mod Consistent
use redis_clone_js.Prelude.{
  ℕ, zero, suc, ◌+◌, ◌-◌, Bool, true, false, not, ◌&&◌, ◌||◌, Option, none, some, List, [], ◌∷◌,
  ◌++◌, map, length, take, drop, replicate, if◌then◌else◌,
}
use redis_clone_js.Prelude.Text.{Text, text, text_eq, to_upper}
use redis_clone_js.Prelude.Int.{ℤ, pos, pos_part, ◌+ℤ◌, ◌*ℤ◌, ltb_ℤ}
use redis_clone_js.Map
use redis_clone_js.Number.{parse_int, Floats}
use redis_clone_js.Cmd.{Cmd, pure, gets, modify, given, ◌>>=◌, ◌>>◌}
use redis_clone_js.Protocol.{
  encode_simple_string, encode_integer, encode_bulk_string, encode_array_of_bulk_strings,
  utf8_length,
}
use redis_clone_js.Store.{
  Store, Entry, Value, str, string, Handler, reply, fail, wrong_type, not_an_integer, remove, put,
  set_expiry, clear_expiry, get_entry, same_type, to_string, to_bool, assign, ensured,
  ensure_string, get_or_init_string,
}
use redis_clone_js.Keyspace.{string_entry, null}
use redis_clone_js.Strings.Range.{slice_range}

abbrev map_some : {A : Type 0} → List A → List (Option A)
map_some = map some

-- s.slice(0, offset), padding with NUL, the value, and what stands behind it.
unfoldable pub overwrite : ℕ → Text → Text → Text
overwrite offset value s =
    take offset s ++ (replicate (offset - length s) 0 ++ (value ++ drop (offset + length value) s))

-- The arguments two by two; `none` for an odd number of them.
unfoldable pub pairs_of : List Text → Option (List (Text × Text))
pairs_of [] = some []
pairs_of (_ ∷ []) = none
pairs_of (k ∷ v ∷ rest) = elim (pairs_of rest) [
  | Option.none ↦ none
  | Option.some ps ↦ some ((k, v) ∷ ps)
]

module _ {Score : Type 0} where
  abbrev size_reply : Text → Handler Score
  size_reply s = reply (encode_integer (pos (utf8_length s)))

  unfoldable pub append : ℕ → List Text → Handler Score
  append now (key ∷ value ∷ []) = do
    entry ← get_or_init_string now key
    modify (assign key entry (str (to_string entry.value ++ value)))
    size_reply (to_string entry.value ++ value)
  append now _ = fail "wrong number of arguments for 'APPEND'"

  unfoldable pub strlen : ℕ → List Text → Handler Score
  strlen now (key ∷ []) = do
    entry ← ensure_string now key
    ensured entry (reply (encode_integer (pos 0))) size_reply
  strlen now _ = fail "wrong number of arguments for 'STRLEN'"

  unfoldable pub range_reply : Text → Option ℤ → Option ℤ → Handler Score
  range_reply s (some start) (some end) =
      reply (encode_bulk_string (some (slice_range start end s)))
  range_reply s _ _ = not_an_integer

  unfoldable pub getrange : ℕ → List Text → Handler Score
  unfolding range_reply
  getrange now (key ∷ start ∷ end ∷ []) = do
    entry ← ensure_string now key
    ensured entry (range_reply [] (parse_int start) (parse_int end))
        (λ s. range_reply s (parse_int start) (parse_int end))
  getrange now _ = fail "wrong number of arguments for 'GETRANGE'"

  unfoldable pub substr : ℕ → List Text → Handler Score
  unfolding getrange
  substr now (key ∷ start ∷ end ∷ []) = getrange now (key ∷ start ∷ end ∷ [])
  substr now _ = fail "wrong number of arguments for 'SUBSTR'"

  unfoldable pub setrange : ℕ → List Text → Handler Score
  unfolding overwrite
  setrange now (key ∷ offset_text ∷ value ∷ []) =
      given (parse_int offset_text) not_an_integer (λ offset.
        if ltb_ℤ offset (pos 0) then not_an_integer else (do
          entry ← get_or_init_string now key
          let s = overwrite (pos_part offset) value (to_string entry.value)
          modify (assign key entry (str s))
          size_reply s))
  setrange now _ = fail "wrong number of arguments for 'SETRANGE'"

  -- An entry that is not a string counts as missing.
  abbrev text_of : Option (Entry Score) → Option Text
  text_of none = none
  text_of (some e) = if same_type e.type string then some (to_string e.value) else none

  unfoldable pub mget_values : ℕ → List Text → Cmd (Store Score) (List (Option Text))
  mget_values now [] = pure []
  mget_values now (k ∷ ks) = do
    entry ← get_entry now k
    rest ← mget_values now ks
    pure (text_of entry ∷ rest)

  unfoldable pub mget : ℕ → List Text → Handler Score
  unfolding mget_values
  mget now args = do out ← mget_values now args; reply (encode_array_of_bulk_strings out)

  unfoldable pub set_string : Text → Text → Store Score → Store Score
  set_string key value s = clear_expiry key (put key (string_entry value) s)

  unfoldable pub set_pairs : List (Text × Text) → Store Score → Store Score
  unfolding set_string
  set_pairs [] s = s
  set_pairs ((k, v) ∷ rest) s = set_pairs rest (set_string k v s)

  unfoldable pub mset : List Text → Handler Score
  unfolding set_pairs pairs_of
  mset args = elim (pairs_of args) [
    | Option.some ((k, v) ∷ rest) ↦ do
      modify (set_pairs ((k, v) ∷ rest))
      reply (encode_simple_string (text "OK"))
    | _ ↦ fail "wrong number of arguments for 'MSET'"
  ]

  unfoldable pub setnx : ℕ → List Text → Handler Score
  unfolding set_string
  setnx now (key ∷ value ∷ []) = do
    entry ← get_entry now key
    if to_bool entry
        then reply (encode_integer (pos 0))
        else do modify (set_string key value); reply (encode_integer (pos 1))
  setnx now _ = fail "wrong number of arguments for 'SETNX'"

  -- Whether one of the keys exists, up to the first one that does.
  unfoldable pub any_exists : ℕ → List (Text × Text) → Cmd (Store Score) Bool
  any_exists now [] = pure false
  any_exists now ((k, v) ∷ rest) = do
    entry ← get_entry now k
    if to_bool entry then pure true else any_exists now rest

  unfoldable pub msetnx_pairs : ℕ → List (Text × Text) → Handler Score
  unfolding set_pairs any_exists
  msetnx_pairs now ps = do
    taken ← any_exists now ps
    if taken
        then reply (encode_integer (pos 0))
        else do modify (set_pairs ps); reply (encode_integer (pos 1))

  unfoldable pub msetnx : ℕ → List Text → Handler Score
  unfolding msetnx_pairs pairs_of
  msetnx now args = elim (pairs_of args) [
    | Option.some ((k, v) ∷ rest) ↦ msetnx_pairs now ((k, v) ∷ rest)
    | _ ↦ fail "wrong number of arguments for 'MSETNX'"
  ]
