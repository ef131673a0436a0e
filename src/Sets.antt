-- ===== src/Sets.antt =====
-- src/core/DataStore.js: SADD, SREM, SISMEMBER, SMISMEMBER, SMEMBERS, SCARD, SMOVE.
pub mod Algebra
pub mod Consistent
pub mod Laws
pub mod Looped
pub mod Difference
pub mod Union
use redis_clone_js.Prelude.{
  ℕ, zero, suc, ◌+◌, Bool, true, false, ◌&&◌, Option, none, some, List, [], ◌∷◌, ◌++◌, map, length,
  if◌then◌else◌,
}
use redis_clone_js.Prelude.Text.{Text, text}
use redis_clone_js.Prelude.Int.{ℤ, pos}
use redis_clone_js.Map
use redis_clone_js.SetOf
use redis_clone_js.Number.{show_ℕ}
use redis_clone_js.Cmd.{Cmd, pure, raise, gets, modify, given, throws, ◌>>=◌, ◌>>◌}
use redis_clone_js.Protocol.{crlf, encode_integer, encode_array_of_bulk_strings}
use redis_clone_js.Store.{
  Store, Entry, Value, str, arr, fields, members, scored, set, Handler, reply, fail, or_throws,
  as_members, put, ensured, ensure_set, get_or_init_set, assign,
}
use redis_clone_js.Hashes.{flag}

-- The loop of SADD: the new set and the number of new members.
unfoldable pub add_members : List Text → List Text → ℕ → List Text × ℕ
add_members [] s added = (s, added)
add_members (m ∷ rest) s added =
    add_members rest (SetOf.add s m) (if SetOf.has s m then added else added + 1)

-- The loop of SREM: the new set and the number of removed members.
unfoldable pub delete_members : List Text → List Text → ℕ → List Text × ℕ
delete_members [] s removed = (s, removed)
delete_members (m ∷ rest) s removed =
    delete_members rest (SetOf.delete s m) (if SetOf.has s m then removed + 1 else removed)

-- Whether each of the members is a field.
unfoldable pub all_fields : List Text → Map.Map Text → Bool
all_fields [] m = true
all_fields (x ∷ rest) m = Map.has m x && all_fields rest m

-- One integer for each member asked for.
unfoldable pub presence : List Text → List Text → Text
presence s [] = []
presence s (m ∷ rest) = encode_integer (flag (SetOf.has s m)) ++ presence s rest

module _ {Score : Type 0} where
  -- The set under `key` is changed in place; its entry is a set.
  unfoldable pub write_set : Text → List Text → Store Score → Store Score
  write_set key l s = put key (record { type = set; value = members l }) s

  -- A `Map` has `has` and no `add`, so the loop ends only if it never calls `add`.
  unfoldable pub add_to_entry : Text → Entry Score → List Text → Value Score → Handler Score
  unfolding add_members all_fields
  add_to_entry key entry ms (members l) = do
    modify (assign key entry (members (add_members ms l 0).0))
    reply (encode_integer (pos (add_members ms l 0).1))
  add_to_entry key entry ms (fields m) =
      if all_fields ms m then reply (encode_integer (pos 0)) else raise throws
  add_to_entry key entry ms _ = raise throws

  unfoldable pub sadd : ℕ → List Text → Handler Score
  unfolding add_to_entry
  sadd now (key ∷ m ∷ ms) = do
    entry ← get_or_init_set now key
    add_to_entry key entry (m ∷ ms) entry.value
  sadd now _ = fail "wrong number of arguments for 'SADD'"

  unfoldable pub srem : ℕ → List Text → Handler Score
  unfolding delete_members write_set
  srem now (key ∷ m ∷ ms) = do
    entry ← ensure_set now key
    ensured entry (reply (encode_integer (pos 0))) (λ l. do
      modify (write_set key (delete_members (m ∷ ms) l 0).0)
      reply (encode_integer (pos (delete_members (m ∷ ms) l 0).1)))
  srem now _ = fail "wrong number of arguments for 'SREM'"

  unfoldable pub sismember : ℕ → List Text → Handler Score
  sismember now (key ∷ m ∷ []) = do
    entry ← ensure_set now key
    ensured entry (reply (encode_integer (pos 0)))
        (λ l. reply (encode_integer (flag (SetOf.has l m))))
  sismember now _ = fail "wrong number of arguments for 'SISMEMBER'"

  abbrev presence_reply : List Text → List Text → Handler Score
  presence_reply ms l = reply (text "*" ++ (show_ℕ (length ms) ++ (crlf ++ presence l ms)))

  unfoldable pub smismember : ℕ → List Text → Handler Score
  unfolding presence
  smismember now (key ∷ m ∷ ms) = do
    entry ← ensure_set now key
    ensured entry (presence_reply (m ∷ ms) []) (λ l. presence_reply (m ∷ ms) l)
  smismember now _ = fail "wrong number of arguments for 'SMISMEMBER'"

  unfoldable pub smembers : ℕ → List Text → Handler Score
  smembers now (key ∷ []) = do
    entry ← ensure_set now key
    ensured entry (reply (encode_array_of_bulk_strings []))
        (λ l. reply (encode_array_of_bulk_strings (map some l)))
  smembers now _ = fail "wrong number of arguments for 'SMEMBERS'"

  unfoldable pub scard : ℕ → List Text → Handler Score
  scard now (key ∷ []) = do
    entry ← ensure_set now key
    ensured entry (reply (encode_integer (pos 0))) (λ l. reply (encode_integer (pos (length l))))
  scard now _ = fail "wrong number of arguments for 'SCARD'"

  -- The member leaves `src` before `dst.value.add` is called, which fails if `dst` holds no set.
  -- The entry of `dst` is read after that, since both keys may be one.
  unfoldable pub move_member : Text → Text → Text → List Text → Handler Score
  unfolding write_set
  move_member src dst m l = do
    modify (write_set src (SetOf.delete l m))
    target ← gets (λ s. Map.get s.kv dst)
    given target (raise throws) (λ e. do
      d ← or_throws (as_members e.value)
      modify (assign dst e (members (SetOf.add d m)))
      reply (encode_integer (pos 1)))

  unfoldable pub smove : ℕ → List Text → Handler Score
  unfolding move_member
  smove now (src ∷ dst ∷ m ∷ []) = do
    entry ← ensure_set now src
    ensured entry (reply (encode_integer (pos 0))) (λ l.
        if SetOf.has l m
        then (do get_or_init_set now dst; move_member src dst m l)
        else reply (encode_integer (pos 0)))
  smove now _ = fail "wrong number of arguments for 'SMOVE'"
