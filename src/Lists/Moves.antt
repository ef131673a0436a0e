-- ===== src/Lists/Moves.antt =====
-- src/core/DataStore.js: LREM, RPOPLPUSH, LMOVE, and `listLength`, `lpopValue`, `rpopValue`, which the
-- server's blocking pops call.
use redis_clone_js.Prelude.{
  ℕ, ◌||◌, ◌&&◌, Bool, true, Option, none, some, List, [], ◌∷◌, ◌++◌, length, if◌then◌else◌,
}
use redis_clone_js.Prelude.Text.{Text, text, text_eq, to_upper}
use redis_clone_js.Prelude.Int.{pos}
use redis_clone_js.Number.{parse_int}
use redis_clone_js.Cmd.{Cmd, pure, modify, given, ◌>>=◌, ◌>>◌}
use redis_clone_js.Protocol.{encode_integer, encode_bulk_string}
use redis_clone_js.Store.{
  Store, arr, Ensured, found, Handler, reply, fail, not_an_integer, or_throws, as_arr, ensured,
  ensure_list, get_or_init_list, assign,
}
use redis_clone_js.Keyspace.{null}
use redis_clone_js.Lists.{write_list, shift, pop}
use redis_clone_js.Lists.Remove.{remove_items}

abbrev is_side : Text → Bool
is_side s = text_eq s (text "LEFT") || text_eq s (text "RIGHT")

unfoldable pub length_of : Ensured (List Text) → ℕ
length_of (found l) = length l
length_of _ = 0

unfoldable pub items_of : Ensured (List Text) → List Text
items_of (found l) = l
items_of _ = []

module _ {Score : Type 0} where
  unfoldable pub lrem : ℕ → List Text → Handler Score
  unfolding remove_items write_list
  lrem now (key ∷ count_text ∷ target ∷ []) = do
    entry ← ensure_list now key
    ensured entry (reply (encode_integer (pos 0))) (λ l.
        given (parse_int count_text) not_an_integer (λ count. do
          modify (write_list key (remove_items count target l).0)
          reply (encode_integer (pos (remove_items count target l).1))))
  lrem now _ = fail "wrong number of arguments for 'LREM'"

  -- The value taken from `src` is put at the head or the tail of the list under `dst`.
  unfoldable pub push_to : ℕ → Text → Bool → Text → Handler Score
  push_to now dst at_head val = do
    entry ← get_or_init_list now dst
    l ← or_throws (as_arr entry.value)
    modify (assign dst entry (arr (if at_head then val ∷ l else l ++ val ∷ [])))
    reply (encode_bulk_string (some val))

  unfoldable pub transfer : ℕ → Text → Text → Bool → Option (Text × List Text) → Handler Score
  unfolding push_to write_list
  transfer now src dst at_head none = null
  transfer now src dst at_head (some (val, rest)) = do
    modify (write_list src rest)
    push_to now dst at_head val

  unfoldable pub rpoplpush : ℕ → List Text → Handler Score
  unfolding transfer pop
  rpoplpush now (src ∷ dst ∷ []) = do
    entry ← ensure_list now src
    ensured entry null (λ l. transfer now src dst true (pop l))
  rpoplpush now _ = fail "wrong number of arguments for 'RPOPLPUSH'"

  unfoldable pub lmove : ℕ → List Text → Handler Score
  unfolding transfer pop
  lmove now (src ∷ dst ∷ from_text ∷ to_text ∷ []) =
      if is_side (to_upper from_text) && is_side (to_upper to_text)
      then (do
        entry ← ensure_list now src
        ensured entry null (λ l.
            transfer now src dst (text_eq (to_upper to_text) (text "LEFT"))
              (if text_eq (to_upper from_text) (text "LEFT") then shift l else pop l)))
      else fail "syntax error"
  lmove now _ = fail "wrong number of arguments for 'LMOVE'"

  unfoldable pub list_length : ℕ → Text → Cmd (Store Score) ℕ
  unfolding length_of
  list_length now key = do entry ← ensure_list now key; pure (length_of entry)

  unfoldable pub take_value : Text → Option (Text × List Text) → Cmd (Store Score) (Option Text)
  unfolding write_list
  take_value key none = pure none
  take_value key (some (v, rest)) = do modify (write_list key rest); pure (some v)

  unfoldable pub lpop_value : ℕ → Text → Cmd (Store Score) (Option Text)
  unfolding take_value items_of
  lpop_value now key = do entry ← ensure_list now key; take_value key (shift (items_of entry))

  unfoldable pub rpop_value : ℕ → Text → Cmd (Store Score) (Option Text)
  unfolding take_value items_of pop
  rpop_value now key = do entry ← ensure_list now key; take_value key (pop (items_of entry))
