-- ===== src/Hashes.antt =====
-- src/core/DataStore.js: the hash commands, without HSCAN.
pub mod Consistent
pub mod Fields
use redis_clone_js.Prelude.{
  ℕ, zero, suc, ◌+◌, Bool, true, false, Option, none, some, List, [], ◌∷◌, map, length,
  if◌then◌else◌,
}
use redis_clone_js.Prelude.Text.{Text, text}
use redis_clone_js.Prelude.Int.{ℤ, pos}
use redis_clone_js.Map
use redis_clone_js.Map.{Map}
use redis_clone_js.Cmd.{Cmd, pure, modify, given, ◌>>=◌, ◌>>◌}
use redis_clone_js.Protocol.{
  encode_simple_string, encode_integer, encode_bulk_string, encode_array_of_bulk_strings,
  utf8_length,
}
use redis_clone_js.Store.{
  Store, Entry, Value, fields, hash, Handler, reply, fail, or_throws, as_fields, put, ensured,
  ensure_hash, get_or_init_hash, assign,
}
use redis_clone_js.Keyspace.{null}
use redis_clone_js.Strings.{pairs_of}

-- The loop of HSET over the pairs: the new map and the number of new fields.
unfoldable pub set_fields : List (Text × Text) → Map Text → ℕ → Map Text × ℕ
set_fields [] m added = (m, added)
set_fields ((field, value) ∷ rest) m added =
    set_fields rest (Map.set m field value) (if Map.has m field then added else added + 1)

-- The loop of HDEL: the new map and the number of removed fields.
unfoldable pub delete_fields : List Text → Map Text → ℕ → Map Text × ℕ
delete_fields [] m removed = (m, removed)
delete_fields (f ∷ rest) m removed =
    delete_fields rest (Map.delete m f) (if Map.has m f then removed + 1 else removed)

abbrev pub flag : Bool → ℤ
flag b = if b then pos 1 else pos 0

-- Each field with its value behind it.
unfoldable pub flattened : Map Text → List (Option Text)
flattened [] = []
flattened ((f, v) ∷ m) = some f ∷ some v ∷ flattened m

abbrev value_length : Option Text → ℕ
value_length none = 0
value_length (some v) = utf8_length v

module _ {Score : Type 0} where
  -- The map under `key` is changed in place; its entry is a hash.
  unfoldable pub write_hash : Text → Map Text → Store Score → Store Score
  write_hash key m s = put key (record { type = hash; value = fields m }) s

  unfoldable pub hset_pairs : ℕ → Text → List (Text × Text) → Handler Score
  unfolding set_fields
  hset_pairs now key ps = do
    entry ← get_or_init_hash now key
    m ← or_throws (as_fields entry.value)
    modify (assign key entry (fields (set_fields ps m 0).0))
    reply (encode_integer (pos (set_fields ps m 0).1))

  unfoldable pub hset : ℕ → List Text → Handler Score
  unfolding hset_pairs pairs_of
  hset now [] = fail "wrong number of arguments for 'HSET'"
  hset now (key ∷ rest) = elim (pairs_of rest) [
    | Option.some ((f, v) ∷ ps) ↦ hset_pairs now key ((f, v) ∷ ps)
    | _ ↦ fail "wrong number of arguments for 'HSET'"
  ]

  unfoldable pub hmset_pairs : ℕ → Text → List (Text × Text) → Handler Score
  unfolding set_fields
  hmset_pairs now key ps = do
    entry ← get_or_init_hash now key
    m ← or_throws (as_fields entry.value)
    modify (assign key entry (fields (set_fields ps m 0).0))
    reply (encode_simple_string (text "OK"))

  unfoldable pub hmset : ℕ → List Text → Handler Score
  unfolding hmset_pairs pairs_of
  hmset now [] = fail "wrong number of arguments for 'HMSET'"
  hmset now (key ∷ rest) = elim (pairs_of rest) [
    | Option.some ((f, v) ∷ ps) ↦ hmset_pairs now key ((f, v) ∷ ps)
    | _ ↦ fail "wrong number of arguments for 'HMSET'"
  ]

  unfoldable pub hget : ℕ → List Text → Handler Score
  hget now (key ∷ field ∷ []) = do
    entry ← ensure_hash now key
    ensured entry null (λ m. reply (encode_bulk_string (Map.get m field)))
  hget now _ = fail "wrong number of arguments for 'HGET'"

  unfoldable pub hdel : ℕ → List Text → Handler Score
  unfolding delete_fields write_hash
  hdel now (key ∷ f ∷ rest) = do
    entry ← ensure_hash now key
    ensured entry (reply (encode_integer (pos 0))) (λ m. do
      modify (write_hash key (delete_fields (f ∷ rest) m 0).0)
      reply (encode_integer (pos (delete_fields (f ∷ rest) m 0).1)))
  hdel now _ = fail "wrong number of arguments for 'HDEL'"

  unfoldable pub hexists : ℕ → List Text → Handler Score
  hexists now (key ∷ field ∷ []) = do
    entry ← ensure_hash now key
    ensured entry (reply (encode_integer (pos 0)))
        (λ m. reply (encode_integer (flag (Map.has m field))))
  hexists now _ = fail "wrong number of arguments for 'HEXISTS'"

  unfoldable pub hlen : ℕ → List Text → Handler Score
  hlen now (key ∷ []) = do
    entry ← ensure_hash now key
    ensured entry (reply (encode_integer (pos 0))) (λ m. reply (encode_integer (pos (Map.size m))))
  hlen now _ = fail "wrong number of arguments for 'HLEN'"

  unfoldable pub hkeys : ℕ → List Text → Handler Score
  hkeys now (key ∷ []) = do
    entry ← ensure_hash now key
    ensured entry (reply (encode_array_of_bulk_strings []))
        (λ m. reply (encode_array_of_bulk_strings (map some (Map.keys m))))
  hkeys now _ = fail "wrong number of arguments for 'HKEYS'"

  unfoldable pub hvals : ℕ → List Text → Handler Score
  hvals now (key ∷ []) = do
    entry ← ensure_hash now key
    ensured entry (reply (encode_array_of_bulk_strings []))
        (λ m. reply (encode_array_of_bulk_strings (map some (Map.values m))))
  hvals now _ = fail "wrong number of arguments for 'HVALS'"

  unfoldable pub hgetall : ℕ → List Text → Handler Score
  unfolding flattened
  hgetall now (key ∷ []) = do
    entry ← ensure_hash now key
    ensured entry (reply (encode_array_of_bulk_strings []))
        (λ m. reply (encode_array_of_bulk_strings (flattened m)))
  hgetall now _ = fail "wrong number of arguments for 'HGETALL'"

  unfoldable pub hmget : ℕ → List Text → Handler Score
  hmget now (key ∷ f ∷ rest) = do
    entry ← ensure_hash now key
    ensured entry (reply (encode_array_of_bulk_strings (map (λ _. none) (f ∷ rest))))
        (λ m. reply (encode_array_of_bulk_strings (map (λ field. Map.get m field) (f ∷ rest))))
  hmget now _ = fail "wrong number of arguments for 'HMGET'"

  unfoldable pub hstrlen : ℕ → List Text → Handler Score
  hstrlen now (key ∷ field ∷ []) = do
    entry ← ensure_hash now key
    ensured entry (reply (encode_integer (pos 0)))
        (λ m. reply (encode_integer (pos (value_length (Map.get m field)))))
  hstrlen now _ = fail "wrong number of arguments for 'HSTRLEN'"
