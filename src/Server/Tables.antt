-- ===== src/Server/Tables.antt =====
-- src/server/Server.js: the tables of `_rewriteArgsForDb`, and `_writeCommands`.
use redis_clone_js.Prelude.{List, [], ◌∷◌}
use redis_clone_js.Prelude.Text.{Text, text}

-- The commands whose first argument alone gets the prefix: the first group of `_rewriteArgsForDb`.
abbrev pub one_key_core : List Text
one_key_core =
    text "GET"
    ∷ text "SET"
    ∷ text "SETNX"
    ∷ text "DEL"
    ∷ text "EXISTS"
    ∷ text "TYPE"
    ∷ text "APPEND"
    ∷ text "GETSET"
    ∷ text "STRLEN"
    ∷ text "GETRANGE"
    ∷ text "SETRANGE"
    ∷ text "INCR"
    ∷ text "DECR"
    ∷ text "INCRBY"
    ∷ text "DECRBY"
    ∷ text "INCRBYFLOAT"
    ∷ text "SETBIT"
    ∷ text "GETBIT"
    ∷ text "BITPOS"
    ∷ text "BITCOUNT"
    ∷ text "BITFIELD"
    ∷ text "BITFIELD_RO"
    ∷ text "LPUSH"
    ∷ text "RPUSH"
    ∷ text "LPOP"
    ∷ text "RPOP"
    ∷ text "LLEN"
    ∷ text "LRANGE"
    ∷ text "LINDEX"
    ∷ text "LSET"
    ∷ text "HGET"
    ∷ text "HSET"
    ∷ text "HMSET"
    ∷ text "HDEL"
    ∷ text "HGETALL"
    ∷ text "HEXISTS"
    ∷ text "HLEN"
    ∷ text "HKEYS"
    ∷ text "HVALS"
    ∷ text "HSTRLEN"
    ∷ text "HSCAN"
    ∷ text "SADD"
    ∷ text "SREM"
    ∷ text "SRANDMEMBER"
    ∷ text "SPOP"
    ∷ text "SMEMBERS"
    ∷ text "SMISMEMBER"
    ∷ text "SCARD"
    ∷ text "SISMEMBER"
    ∷ text "ZADD"
    ∷ text "ZREM"
    ∷ text "ZRANK"
    ∷ text "ZREVRANK"
    ∷ text "ZSCORE"
    ∷ text "ZCARD"
    ∷ text "ZRANGE"
    ∷ text "ZRANGEBYSCORE"
    ∷ text "GEOADD"
    ∷ text "GEODIST"
    ∷ text "PFADD"
    ∷ text "EXPIRE"
    ∷ text "SETEX"
    ∷ text "PEXPIRE"
    ∷ text "PERSIST"
    ∷ text "EXPIREAT"
    ∷ text "PEXPIREAT"
    ∷ text "TTL"
    ∷ text "PTTL"
    ∷ text "TS.CREATE"
    ∷ text "TS.ADD"
    ∷ text "TS.RANGE"
    ∷ text "TS.GET"
    ∷ []

-- The later groups of the same kind.
abbrev pub one_key_other : List Text
one_key_other =
    text "JSON.SET"
    ∷ text "JSON.GET"
    ∷ text "JSON.DEL"
    ∷ text "JSON.FORGET"
    ∷ text "JSON.MGET"
    ∷ text "JSON.TYPE"
    ∷ text "JSON.OBJKEYS"
    ∷ text "JSON.OBJLEN"
    ∷ text "JSON.ARRLEN"
    ∷ text "JSON.ARRAPPEND"
    ∷ text "JSON.ARRINSERT"
    ∷ text "JSON.ARRPOP"
    ∷ text "JSON.ARRTRIM"
    ∷ text "JSON.ARRINDEX"
    ∷ text "JSON.STRAPPEND"
    ∷ text "JSON.STRLEN"
    ∷ text "JSON.NUMINCRBY"
    ∷ text "JSON.NUMMULTBY"
    ∷ text "JSON.TOGGLE"
    ∷ text "JSON.CLEAR"
    ∷ text "VEC.ADD"
    ∷ text "VEC.CREATEINDEX"
    ∷ text "VEC.REBUILD"
    ∷ text "VEC.STATS"
    ∷ text "VEC.SEARCH"
    ∷ text "VEC.ADDVEC"
    ∷ text "VEC.SUBVEC"
    ∷ text "VEC.DOT"
    ∷ text "VEC.EMBEDADD"
    ∷ text "GEOSEARCH"
    ∷ text "GEOHASH"
    ∷ text "GEOPOS"
    ∷ text "GEORADIUS"
    ∷ text "GEORADIUSBYMEMBER"
    ∷ text "HMGET"
    ∷ []

-- The commands whose arguments all get the prefix.
abbrev pub all_keys_commands : List Text
all_keys_commands =
    text "MGET"
    ∷ text "SINTER"
    ∷ text "SUNION"
    ∷ text "SDIFF"
    ∷ text "PFCOUNT"
    ∷ text "PFMERGE"
    ∷ []

-- The commands whose first two arguments get it.
abbrev pub two_key_commands : List Text
two_key_commands =
    text "TS.CREATERULE"
    ∷ text "TS.DELETERULE"
    ∷ text "GEOSEARCHSTORE"
    ∷ text "RPOPLPUSH"
    ∷ text "LMOVE"
    ∷ text "SMOVE"
    ∷ []

-- A destination and its sources.
abbrev pub store_commands : List Text
store_commands = text "SUNIONSTORE" ∷ text "SINTERSTORE" ∷ text "SDIFFSTORE" ∷ []

-- `_writeCommands`: what the log, the backlog and a replica take for a write.
abbrev pub write_commands : List Text
write_commands =
    text "SET"
    ∷ text "SETNX"
    ∷ text "DEL"
    ∷ text "MSET"
    ∷ text "MSETNX"
    ∷ text "APPEND"
    ∷ text "INCR"
    ∷ text "DECR"
    ∷ text "INCRBY"
    ∷ text "DECRBY"
    ∷ text "INCRBYFLOAT"
    ∷ text "SETRANGE"
    ∷ text "GETSET"
    ∷ text "SETEX"
    ∷ text "LPUSH"
    ∷ text "RPUSH"
    ∷ text "LPOP"
    ∷ text "RPOP"
    ∷ text "LSET"
    ∷ text "HSET"
    ∷ text "HMSET"
    ∷ text "HDEL"
    ∷ text "SADD"
    ∷ text "SREM"
    ∷ text "SPOP"
    ∷ text "ZADD"
    ∷ text "ZREM"
    ∷ text "VEC.ADD"
    ∷ text "VEC.CREATEINDEX"
    ∷ text "VEC.REBUILD"
    ∷ text "VEC.ADDVEC"
    ∷ text "VEC.SUBVEC"
    ∷ text "VEC.EMBEDADD"
    ∷ text "GEOADD"
    ∷ text "GEOPOS"
    ∷ text "GEOSEARCHSTORE"
    ∷ text "GEORADIUS"
    ∷ text "GEORADIUSBYMEMBER"
    ∷ text "SETBIT"
    ∷ text "BITOP"
    ∷ text "BITFIELD"
    ∷ text "PFADD"
    ∷ text "PFMERGE"
    ∷ text "TS.CREATE"
    ∷ text "TS.ADD"
    ∷ text "TS.CREATERULE"
    ∷ text "TS.DELETERULE"
    ∷ text "DOC.INDEXCREATE"
    ∷ text "DOC.INDEXDROP"
    ∷ text "DOC.INDEXADD"
    ∷ text "DOC.INDEXDEL"
    ∷ text "DOC.INDEXUPDATE"
    ∷ text "DOC.INDEXREBUILD"
    ∷ text "CF.RESERVE"
    ∷ text "CF.ADD"
    ∷ text "CF.ADDNX"
    ∷ text "CF.DEL"
    ∷ text "CF.INSERT"
    ∷ text "CF.INSERTNX"
    ∷ text "CF.MADD"
    ∷ text "XADD"
    ∷ text "XDEL"
    ∷ text "XTRIM"
    ∷ text "XACK"
    ∷ text "XGROUP"
    ∷ text "EXPIRE"
    ∷ text "PERSIST"
    ∷ text "SAVE"
    ∷ []
