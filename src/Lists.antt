-- ===== src/Lists.antt =====
-- src/core/DataStore.js: the list commands and the helpers of the blocking pops.
pub mod Remove
pub mod RemovedItems
pub mod Moves
pub mod Consistent
pub mod Laws
pub mod Queue
pub mod Loss
use redis_clone_js.Prelude.{
  ℕ, zero, suc, ◌+◌, ◌-◌, Bool, true, false, ◌&&◌, ◌||◌, Option, none, some, List, [], ◌∷◌, ◌++◌,
  map, length, get_elem?, set as set_elem, leb, if◌then◌else◌,
}
use redis_clone_js.Prelude.Text.{Text, text, text_eq, to_upper}
use redis_clone_js.Prelude.Int.{ℤ, pos, negsuc, pos_part, ◌-ℤ◌, ltb_ℤ}
use redis_clone_js.Number.{parse_int}
use redis_clone_js.Strings.Range.{from_end, start_index, end_index, slice, slice_range}
use redis_clone_js.Cmd.{Cmd, pure, modify, given, ◌>>=◌, ◌>>◌}
use redis_clone_js.Protocol.{
  encode_simple_string, encode_integer, encode_bulk_string, encode_array_of_bulk_strings,
}
use redis_clone_js.Store.{
  Store, Entry, Value, arr, list, Ensured, found, missing, other_type, Handler, reply, fail,
  not_an_integer, or_throws, as_arr, put, ensured, ensure_list, get_or_init_list, assign,
}
use redis_clone_js.Keyspace.{null}

-- for (const v of values) entry.value.unshift(v): the last value comes first
unfoldable pub unshift_all : List Text → List Text → List Text
unshift_all [] l = l
unshift_all (v ∷ values) l = unshift_all values (v ∷ l)

-- l.shift() and l.pop(), with what is left
abbrev pub shift : List Text → Option (Text × List Text)
shift [] = none
shift (x ∷ l) = some (x, l)

unfoldable pub pop : List Text → Option (Text × List Text)
pop [] = none
pop (x ∷ l) = elim (pop l) [
  | Option.none ↦ some (x, [])
  | Option.some (y, rest) ↦ some (y, x ∷ rest)
]

-- The index meant, unless it is out of range.
unfoldable pub checked_index : List Text → ℤ → Option ℕ
checked_index l i =
    let index = from_end (length l) i in
    if ltb_ℤ index (pos 0) || leb (length l) (pos_part index) then none else some (pos_part index)

-- The value that LTRIM leaves.
unfoldable pub trimmed : ℤ → ℤ → List Text → List Text
trimmed start end l =
    let first = start_index (length l) start in
    let i = from_end (length l) end in
    let top = pos (length l) -ℤ pos 1 in
    let last : ℤ = if ltb_ℤ top i then top else i in
    if ltb_ℤ last (pos first) then [] else slice first (pos_part last + 1) l

module _ {Score : Type 0} where
  -- The array under `key` is changed in place; its entry is a list.
  unfoldable pub write_list : Text → List Text → Store Score → Store Score
  write_list key l s = put key (record { type = list; value = arr l }) s

  abbrev length_reply : List Text → Handler Score
  length_reply l = reply (encode_integer (pos (length l)))

  abbrev ok : Handler Score
  ok = reply (encode_simple_string (text "OK"))

  unfoldable pub lpush : ℕ → List Text → Handler Score
  unfolding unshift_all
  lpush now (key ∷ v ∷ values) = do
    entry ← get_or_init_list now key
    l ← or_throws (as_arr entry.value)
    modify (assign key entry (arr (unshift_all (v ∷ values) l)))
    length_reply (unshift_all (v ∷ values) l)
  lpush now _ = fail "wrong number of arguments for 'LPUSH'"

  unfoldable pub rpush : ℕ → List Text → Handler Score
  rpush now (key ∷ v ∷ values) = do
    entry ← get_or_init_list now key
    l ← or_throws (as_arr entry.value)
    modify (assign key entry (arr (l ++ v ∷ values)))
    length_reply (l ++ v ∷ values)
  rpush now _ = fail "wrong number of arguments for 'RPUSH'"

  unfoldable pub pop_reply : Text → Option (Text × List Text) → Handler Score
  unfolding write_list
  pop_reply key none = null
  pop_reply key (some (v, rest)) = do
    modify (write_list key rest)
    reply (encode_bulk_string (some v))

  unfoldable pub lpop : ℕ → List Text → Handler Score
  unfolding pop_reply
  lpop now (key ∷ []) = do
    entry ← ensure_list now key
    ensured entry null (λ l. pop_reply key (shift l))
  lpop now _ = fail "wrong number of arguments for 'LPOP'"

  unfoldable pub rpop : ℕ → List Text → Handler Score
  unfolding pop_reply pop
  rpop now (key ∷ []) = do
    entry ← ensure_list now key
    ensured entry null (λ l. pop_reply key (pop l))
  rpop now _ = fail "wrong number of arguments for 'RPOP'"

  unfoldable pub lrange_reply : List Text → Option ℤ → Option ℤ → Handler Score
  lrange_reply l (some start) (some end) =
      reply (encode_array_of_bulk_strings (map some (slice_range start end l)))
  lrange_reply l _ _ = not_an_integer

  unfoldable pub lrange : ℕ → List Text → Handler Score
  unfolding lrange_reply
  lrange now (key ∷ start ∷ end ∷ []) = do
    entry ← ensure_list now key
    ensured entry (lrange_reply [] (parse_int start) (parse_int end))
        (λ l. lrange_reply l (parse_int start) (parse_int end))
  lrange now _ = fail "wrong number of arguments for 'LRANGE'"

  unfoldable pub lindex : ℕ → List Text → Handler Score
  unfolding checked_index
  lindex now (key ∷ index_text ∷ []) = do
    entry ← ensure_list now key
    ensured entry null (λ l. given (parse_int index_text) not_an_integer (λ i.
        given (checked_index l i) null (λ index. reply (encode_bulk_string (get_elem? l index)))))
  lindex now _ = fail "wrong number of arguments for 'LINDEX'"

  unfoldable pub lset : ℕ → List Text → Handler Score
  unfolding checked_index write_list
  lset now (key ∷ index_text ∷ value ∷ []) = do
    entry ← ensure_list now key
    ensured entry (fail "no such key") (λ l. given (parse_int index_text) not_an_integer (λ i.
        given (checked_index l i) (fail "index out of range")
          (λ index. do modify (write_list key (set_elem l index value)); ok)))
  lset now _ = fail "wrong number of arguments for 'LSET'"

  unfoldable pub llen : ℕ → List Text → Handler Score
  llen now (key ∷ []) = do
    entry ← ensure_list now key
    ensured entry (reply (encode_integer (pos 0))) length_reply
  llen now _ = fail "wrong number of arguments for 'LLEN'"

  unfoldable pub ltrim : ℕ → List Text → Handler Score
  unfolding trimmed write_list
  ltrim now (key ∷ start_text ∷ end_text ∷ []) = do
    entry ← ensure_list now key
    ensured entry ok (λ l. given (parse_int start_text) not_an_integer (λ start.
        given (parse_int end_text) not_an_integer
          (λ end. do modify (write_list key (trimmed start end l)); ok)))
  ltrim now _ = fail "wrong number of arguments for 'LTRIM'"
