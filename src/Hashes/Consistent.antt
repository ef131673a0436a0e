-- ===== src/Hashes/Consistent.antt =====
-- The hash commands keep the invariant of the two maps.
use redis_clone_js.Prelude.{ℕ, Option, List, [], ◌∷◌}
use redis_clone_js.Prelude.Text.{Text, text}
use redis_clone_js.Map.{Map}
use redis_clone_js.Cmd.{modify, pure}
use redis_clone_js.Cmd.Keeps.{Keeps, Keeps-modify}
use redis_clone_js.Protocol.{encode_error}
use redis_clone_js.Store.Consistent.{IsConsistent, put-IsConsistent, consistent_rules}
use redis_clone_js.Strings.{pairs_of}
use redis_clone_js.Hashes.{
  write_hash, hset_pairs, hset, hmset_pairs, hmset, hget, hdel, hexists, hlen, hkeys, hvals,
  hgetall, hmget, hstrlen,
}

module _ {Score : Type 0} where
  write_hash-Keeps :
      (key : Text) (m : Map Text) → Keeps (IsConsistent {Score = Score}) (modify (write_hash key m))
  unfolding write_hash
  write_hash-Keeps key m = Keeps-modify (write_hash key m) (put-IsConsistent key _)

ruleset hash_rules = (consistent_rules, write_hash-Keeps)

module _ {Score : Type 0} (now : ℕ) where
  hset_pairs-Keeps :
      (key : Text) (ps : List (Text × Text))
      → Keeps (IsConsistent {Score = Score}) (hset_pairs now key ps)
  unfolding hset_pairs
  hset_pairs-Keeps key ps = search hash_rules

  pub hset-Keeps : (args : List Text) → Keeps (IsConsistent {Score = Score}) (hset now args)
  unfolding hset
  hset-Keeps [] = search hash_rules
  hset-Keeps (key ∷ rest) =
      elim (pairs_of rest)
        as (λ o. Keeps (IsConsistent {Score = Score}) (elim o [
          | Option.some ((f, v) ∷ ps) ↦ hset_pairs now key ((f, v) ∷ ps)
          | _ ↦ pure (encode_error (text "wrong number of arguments for 'HSET'"))
        ])) [
          | Option.some ((f, v) ∷ ps) ↦ hset_pairs-Keeps key ((f, v) ∷ ps)
          | _ ↦ search hash_rules
        ]

  hmset_pairs-Keeps :
      (key : Text) (ps : List (Text × Text))
      → Keeps (IsConsistent {Score = Score}) (hmset_pairs now key ps)
  unfolding hmset_pairs
  hmset_pairs-Keeps key ps = search hash_rules

  pub hmset-Keeps : (args : List Text) → Keeps (IsConsistent {Score = Score}) (hmset now args)
  unfolding hmset
  hmset-Keeps [] = search hash_rules
  hmset-Keeps (key ∷ rest) =
      elim (pairs_of rest)
        as (λ o. Keeps (IsConsistent {Score = Score}) (elim o [
          | Option.some ((f, v) ∷ ps) ↦ hmset_pairs now key ((f, v) ∷ ps)
          | _ ↦ pure (encode_error (text "wrong number of arguments for 'HMSET'"))
        ])) [
          | Option.some ((f, v) ∷ ps) ↦ hmset_pairs-Keeps key ((f, v) ∷ ps)
          | _ ↦ search hash_rules
        ]

  pub hget-Keeps : (args : List Text) → Keeps (IsConsistent {Score = Score}) (hget now args)
  unfolding hget
  hget-Keeps (key ∷ f ∷ []) = search hash_rules
  hget-Keeps _ = search hash_rules

  pub hdel-Keeps : (args : List Text) → Keeps (IsConsistent {Score = Score}) (hdel now args)
  unfolding hdel
  hdel-Keeps (key ∷ f ∷ rest) = search hash_rules
  hdel-Keeps _ = search hash_rules

  pub hexists-Keeps : (args : List Text) → Keeps (IsConsistent {Score = Score}) (hexists now args)
  unfolding hexists
  hexists-Keeps (key ∷ f ∷ []) = search hash_rules
  hexists-Keeps _ = search hash_rules

  pub hlen-Keeps : (args : List Text) → Keeps (IsConsistent {Score = Score}) (hlen now args)
  unfolding hlen
  hlen-Keeps (key ∷ []) = search hash_rules
  hlen-Keeps _ = search hash_rules

  pub hkeys-Keeps : (args : List Text) → Keeps (IsConsistent {Score = Score}) (hkeys now args)
  unfolding hkeys
  hkeys-Keeps (key ∷ []) = search hash_rules
  hkeys-Keeps _ = search hash_rules

  pub hvals-Keeps : (args : List Text) → Keeps (IsConsistent {Score = Score}) (hvals now args)
  unfolding hvals
  hvals-Keeps (key ∷ []) = search hash_rules
  hvals-Keeps _ = search hash_rules

  pub hgetall-Keeps : (args : List Text) → Keeps (IsConsistent {Score = Score}) (hgetall now args)
  unfolding hgetall
  hgetall-Keeps (key ∷ []) = search hash_rules
  hgetall-Keeps _ = search hash_rules

  pub hmget-Keeps : (args : List Text) → Keeps (IsConsistent {Score = Score}) (hmget now args)
  unfolding hmget
  hmget-Keeps (key ∷ f ∷ rest) = search hash_rules
  hmget-Keeps _ = search hash_rules

  pub hstrlen-Keeps : (args : List Text) → Keeps (IsConsistent {Score = Score}) (hstrlen now args)
  unfolding hstrlen
  hstrlen-Keeps (key ∷ f ∷ []) = search hash_rules
  hstrlen-Keeps _ = search hash_rules
