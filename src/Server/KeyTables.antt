-- ===== src/Server/KeyTables.antt =====
-- src/server/Server.js: the tables of `_extractKeysForAcl`.
use redis_clone_js.Prelude.{List, [], ◌∷◌}
use redis_clone_js.Prelude.Text.{Text, text}

-- The commands whose first argument is the key that the access control list is asked for.
abbrev pub first_key_core : List Text
first_key_core =
    text "GET"
    ∷ text "SET"
    ∷ text "SETNX"
    ∷ text "DEL"
    ∷ text "EXISTS"
    ∷ text "TYPE"
    ∷ text "INCR"
    ∷ text "DECR"
    ∷ text "INCRBY"
    ∷ text "DECRBY"
    ∷ text "INCRBYFLOAT"
    ∷ text "APPEND"
    ∷ text "GETSET"
    ∷ text "SETEX"
    ∷ text "STRLEN"
    ∷ text "GETRANGE"
    ∷ text "SETRANGE"
    ∷ text "HGET"
    ∷ text "HSET"
    ∷ text "HMSET"
    ∷ text "HDEL"
    ∷ text "HGETALL"
    ∷ text "HEXISTS"
    ∷ text "HLEN"
    ∷ text "HKEYS"
    ∷ text "HVALS"
    ∷ text "HSTRLEN"
    ∷ text "HSCAN"
    ∷ text "SADD"
    ∷ text "SREM"
    ∷ text "SRANDMEMBER"
    ∷ text "SPOP"
    ∷ text "SMEMBERS"
    ∷ text "SMISMEMBER"
    ∷ text "SCARD"
    ∷ text "SISMEMBER"
    ∷ text "LPUSH"
    ∷ text "RPUSH"
    ∷ text "LPOP"
    ∷ text "RPOP"
    ∷ text "LLEN"
    ∷ text "LRANGE"
    ∷ text "LINDEX"
    ∷ text "LSET"
    ∷ text "ZADD"
    ∷ text "ZREM"
    ∷ text "ZRANK"
    ∷ text "ZREVRANK"
    ∷ text "ZSCORE"
    ∷ text "ZCARD"
    ∷ text "ZRANGE"
    ∷ text "ZRANGEBYSCORE"
    ∷ text "GEOADD"
    ∷ text "GEODIST"
    ∷ text "PFADD"
    ∷ text "SETBIT"
    ∷ text "GETBIT"
    ∷ text "BITPOS"
    ∷ text "BITCOUNT"
    ∷ text "BITFIELD"
    ∷ text "BITFIELD_RO"
    ∷ text "EXPIRE"
    ∷ text "PERSIST"
    ∷ text "PTTL"
    ∷ text "TTL"
    ∷ text "PEXPIRE"
    ∷ text "EXPIREAT"
    ∷ text "PEXPIREAT"
    ∷ text "JSON.SET"
    ∷ text "JSON.GET"
    ∷ text "JSON.DEL"
    ∷ text "JSON.FORGET"
    ∷ text "JSON.MGET"
    ∷ text "JSON.TYPE"
    ∷ text "JSON.OBJKEYS"
    ∷ text "JSON.OBJLEN"
    ∷ text "JSON.ARRLEN"
    ∷ text "JSON.ARRAPPEND"
    ∷ text "JSON.ARRINSERT"
    ∷ text "JSON.ARRPOP"
    ∷ text "JSON.ARRTRIM"
    ∷ text "JSON.ARRINDEX"
    ∷ text "JSON.STRAPPEND"
    ∷ text "JSON.STRLEN"
    ∷ text "JSON.NUMINCRBY"
    ∷ text "JSON.NUMMULTBY"
    ∷ text "JSON.TOGGLE"
    ∷ text "JSON.CLEAR"
    ∷ text "GEOSEARCH"
    ∷ text "GEOHASH"
    ∷ text "GEOPOS"
    ∷ []

-- The later groups of the same kind.
abbrev pub first_key_other : List Text
first_key_other =
    text "VEC.ADD"
    ∷ text "VEC.ADDVEC"
    ∷ text "VEC.SUBVEC"
    ∷ text "VEC.DOT"
    ∷ text "VEC.EMBEDADD"
    ∷ text "VEC.CREATEINDEX"
    ∷ text "VEC.REBUILD"
    ∷ text "VEC.STATS"
    ∷ text "VEC.SEARCH"
    ∷ text "HMGET"
    ∷ []

-- The commands whose arguments are all taken as keys.
abbrev pub every_argument : List Text
every_argument =
    text "DOC.INDEXCREATE"
    ∷ text "DOC.INDEXDROP"
    ∷ text "DOC.INDEXLIST"
    ∷ text "DOC.INDEXADD"
    ∷ text "DOC.INDEXDEL"
    ∷ text "DOC.INDEXUPDATE"
    ∷ text "DOC.INDEXREBUILD"
    ∷ text "DOC.SEARCH"
    ∷ text "DOC.AGGREGATE"
    ∷ text "MGET"
    ∷ text "SINTER"
    ∷ text "SUNION"
    ∷ text "SDIFF"
    ∷ text "SUNIONSTORE"
    ∷ text "SINTERSTORE"
    ∷ text "SDIFFSTORE"
    ∷ []

-- The commands whose first two arguments are keys.
abbrev pub first_two_keys : List Text
first_two_keys =
    text "RPOPLPUSH"
    ∷ text "LMOVE"
    ∷ text "SMOVE"
    ∷ text "TS.CREATERULE"
    ∷ text "TS.DELETERULE"
    ∷ []
