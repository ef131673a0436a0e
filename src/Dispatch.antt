-- ===== src/Dispatch.antt =====
-- src/core/DataStore.js: `dispatch`, by the name of the command. The commands of the types that are
-- not modelled (JSON, vectors, streams, …) and SPOP, SRANDMEMBER, RANDOMKEY, the bit commands, the
-- scans and ZRANGEBYSCORE have no handler here: they end as `unmodelled`, not as unknown commands.
pub mod Unmodelled
pub mod Consistent
use redis_clone_js.Prelude.{
  ℕ, Bool, true, false, Option, none, some, List, [], ◌∷◌, ◌++◌, ◌≡◌, refl, if◌then◌else◌,
}
use redis_clone_js.Prelude.Text.{Text, text, text_eq, to_upper}
use redis_clone_js.Number.{Doubles, Floats}
use redis_clone_js.SetOf
use redis_clone_js.Dispatch.Unmodelled.{unmodelled_commands}
use redis_clone_js.Cmd.{pure, raise, unmodelled}
use redis_clone_js.Protocol.{encode_error}
use redis_clone_js.Store.{Handler, reply}
use redis_clone_js.Keyspace.{set, get, del, exists, type, dbsize, rename, renamenx, flush, keys}
use redis_clone_js.Strings.{append, strlen, getrange, setrange, mget, mset, setnx, msetnx, substr}
use redis_clone_js.Strings.Counter.{incr, decr, incrby, decrby}
use redis_clone_js.Strings.Exchange.{setex, psetex, getset, getdel, getex, incrbyfloat}
use redis_clone_js.Lists.{lpush, rpush, lpop, rpop, lrange, lindex, lset, llen, ltrim}
use redis_clone_js.Lists.Moves.{lrem, rpoplpush, lmove}
use redis_clone_js.Ttl.{expire, ttl, persist, pttl, pexpire, expireat, pexpireat}
use redis_clone_js.Hashes.{
  hset, hmset, hget, hdel, hexists, hlen, hkeys, hvals, hgetall, hmget, hstrlen,
}
use redis_clone_js.Sets.{sadd, srem, sismember, smismember, smembers, scard, smove}
use redis_clone_js.Sets.Algebra.{sinter, sunion, sdiff, sunionstore, sinterstore, sdiffstore}
use redis_clone_js.ZSets.Commands.{
  zadd, zrem, zincrby, zrank, zrevrank, zscore, zcard, zrange, zrevrange, zpop,
}

-- What the handlers take from JavaScript: numbers, and regular expressions: `none` for a
-- SyntaxError, or the test of the expression.
pub record Engine (Score : Type 0) : Type 0 where
  pub doubles : Doubles
  pub floats : Floats Score
  pub regex_test : Text → Option (Text → Bool)

module _ {Score : Type 0} (e : Engine Score) (now : ℕ) where
  abbrev pub Table : Type 0
  Table = List (Text × (List Text → Handler Score))

  unfoldable pub keyspace_commands : Table
  keyspace_commands =
      (text "SET", set now)
      ∷ (text "GET", get now)
      ∷ (text "DEL", del now)
      ∷ (text "EXISTS", exists now)
      ∷ (text "EXPIRE", expire now)
      ∷ (text "TTL", ttl now)
      ∷ (text "PERSIST", persist now)
      ∷ (text "PTTL", pttl now)
      ∷ (text "PEXPIRE", pexpire now)
      ∷ (text "EXPIREAT", expireat now)
      ∷ (text "PEXPIREAT", pexpireat now)
      ∷ (text "TYPE", type now)
      ∷ (text "DBSIZE", dbsize now)
      ∷ (text "RENAME", rename now)
      ∷ (text "RENAMENX", renamenx now)
      ∷ (text "FLUSHDB", flush)
      ∷ (text "FLUSHALL", flush)
      ∷ (text "KEYS", keys e.regex_test now)
      ∷ []

  unfoldable pub string_commands : Table
  string_commands =
      (text "APPEND", append now)
      ∷ (text "STRLEN", strlen now)
      ∷ (text "INCR", incr e.doubles now)
      ∷ (text "DECR", decr e.doubles now)
      ∷ (text "INCRBY", incrby e.doubles now)
      ∷ (text "DECRBY", decrby e.doubles now)
      ∷ (text "GETRANGE", getrange now)
      ∷ (text "SETRANGE", setrange now)
      ∷ (text "MGET", mget now)
      ∷ (text "MSET", mset)
      ∷ (text "SETNX", setnx now)
      ∷ (text "MSETNX", msetnx now)
      ∷ (text "SETEX", setex now)
      ∷ (text "PSETEX", psetex)
      ∷ (text "GETSET", getset now)
      ∷ (text "GETDEL", getdel now)
      ∷ (text "GETEX", getex now)
      ∷ (text "INCRBYFLOAT", incrbyfloat e.floats now)
      ∷ (text "SUBSTR", substr now)
      ∷ []

  unfoldable pub list_commands : Table
  list_commands =
      (text "LPUSH", lpush now)
      ∷ (text "RPUSH", rpush now)
      ∷ (text "LPOP", lpop now)
      ∷ (text "RPOP", rpop now)
      ∷ (text "LRANGE", lrange now)
      ∷ (text "LINDEX", lindex now)
      ∷ (text "LSET", lset now)
      ∷ (text "LLEN", llen now)
      ∷ (text "LTRIM", ltrim now)
      ∷ (text "LREM", lrem now)
      ∷ (text "RPOPLPUSH", rpoplpush now)
      ∷ (text "LMOVE", lmove now)
      ∷ []

  unfoldable pub hash_commands : Table
  hash_commands =
      (text "HSET", hset now)
      ∷ (text "HMSET", hmset now)
      ∷ (text "HGET", hget now)
      ∷ (text "HDEL", hdel now)
      ∷ (text "HEXISTS", hexists now)
      ∷ (text "HLEN", hlen now)
      ∷ (text "HKEYS", hkeys now)
      ∷ (text "HVALS", hvals now)
      ∷ (text "HGETALL", hgetall now)
      ∷ (text "HMGET", hmget now)
      ∷ (text "HSTRLEN", hstrlen now)
      ∷ []

  unfoldable pub set_commands : Table
  set_commands =
      (text "SADD", sadd now)
      ∷ (text "SREM", srem now)
      ∷ (text "SISMEMBER", sismember now)
      ∷ (text "SMISMEMBER", smismember now)
      ∷ (text "SMEMBERS", smembers now)
      ∷ (text "SCARD", scard now)
      ∷ (text "SINTER", sinter now)
      ∷ (text "SUNION", sunion now)
      ∷ (text "SDIFF", sdiff now)
      ∷ (text "SMOVE", smove now)
      ∷ (text "SUNIONSTORE", sunionstore now)
      ∷ (text "SINTERSTORE", sinterstore now)
      ∷ (text "SDIFFSTORE", sdiffstore now)
      ∷ []

  unfoldable pub zset_commands : Table
  zset_commands =
      (text "ZADD", zadd e.floats now)
      ∷ (text "ZREM", zrem now)
      ∷ (text "ZINCRBY", zincrby e.floats now)
      ∷ (text "ZRANK", zrank now)
      ∷ (text "ZREVRANK", zrevrank now)
      ∷ (text "ZSCORE", zscore e.floats now)
      ∷ (text "ZCARD", zcard now)
      ∷ (text "ZRANGE", zrange e.floats now)
      ∷ (text "ZREVRANGE", zrevrange e.floats now)
      ∷ (text "ZPOPMIN", zpop true now)
      ∷ (text "ZPOPMAX", zpop false now)
      ∷ []

  -- The handler of the first table that has the command.
  unfoldable pub find_handler : Table → Text → Option (List Text → Handler Score)
  find_handler [] op = none
  find_handler ((name, handler) ∷ table) op =
      if text_eq op name then some handler else find_handler table op

  abbrev unknown : Text → Handler Score
  unknown command = reply (encode_error (text "unknown command '" ++ (command ++ text "'")))

  abbrev pub commands : Table
  commands =
      keyspace_commands
      ++ (string_commands ++ (list_commands ++ (hash_commands ++ (set_commands ++ zset_commands))))

  unfoldable pub run_handler : Option (List Text → Handler Score) → Text → List Text → Handler Score
  run_handler none command args =
      if SetOf.has unmodelled_commands (to_upper command) then raise unmodelled else unknown command
  run_handler (some handler) command args = handler args

  unfoldable pub dispatch : Text → List Text → Handler Score
  unfolding find_handler run_handler keyspace_commands string_commands list_commands hash_commands
      set_commands zset_commands
  dispatch [] args = reply (encode_error (text "empty command"))
  dispatch (c ∷ command) args =
      run_handler (find_handler commands (to_upper (c ∷ command))) (c ∷ command) args
