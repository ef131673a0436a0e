-- ===== src/Dispatch/Unmodelled.antt =====
-- src/core/DataStore.js: the commands of `dispatch` that are not modelled.
use redis_clone_js.Prelude.{List, [], ◌∷◌}
use redis_clone_js.Prelude.Text.{Text, text}

-- The commands that the source dispatches to handlers that have no counterpart here.
abbrev pub unmodelled_commands : List Text
unmodelled_commands =
    text "SETBIT"
    ∷ text "GETBIT"
    ∷ text "BITCOUNT"
    ∷ text "BITPOS"
    ∷ text "BITOP"
    ∷ text "BITFIELD"
    ∷ text "BITFIELD_RO"
    ∷ text "RANDOMKEY"
    ∷ text "HSCAN"
    ∷ text "SPOP"
    ∷ text "SRANDMEMBER"
    ∷ text "SSCAN"
    ∷ text "ZRANGEBYSCORE"
    ∷ text "ZSCAN"
    ∷ text "GEOADD"
    ∷ text "GEODIST"
    ∷ text "GEOSEARCH"
    ∷ text "GEOHASH"
    ∷ text "GEOPOS"
    ∷ text "GEOSEARCHSTORE"
    ∷ text "GEORADIUS"
    ∷ text "GEORADIUSBYMEMBER"
    ∷ text "TS.CREATE"
    ∷ text "TS.ADD"
    ∷ text "TS.CREATERULE"
    ∷ text "TS.DELETERULE"
    ∷ text "TS.RANGE"
    ∷ text "TS.GET"
    ∷ text "JSON.SET"
    ∷ text "JSON.GET"
    ∷ text "JSON.DEL"
    ∷ text "JSON.ARRAPPEND"
    ∷ text "JSON.NUMMULTBY"
    ∷ text "JSON.TOGGLE"
    ∷ text "JSON.CLEAR"
    ∷ text "JSON.MGET"
    ∷ text "JSON.TYPE"
    ∷ text "JSON.OBJKEYS"
    ∷ text "JSON.OBJLEN"
    ∷ text "JSON.ARRLEN"
    ∷ text "JSON.ARRPOP"
    ∷ text "JSON.ARRINSERT"
    ∷ text "JSON.ARRTRIM"
    ∷ text "JSON.ARRINDEX"
    ∷ text "JSON.STRAPPEND"
    ∷ text "JSON.STRLEN"
    ∷ text "JSON.NUMINCRBY"
    ∷ text "JSON.FORGET"
    ∷ text "VEC.ADD"
    ∷ text "VEC.SEARCH"
    ∷ text "VEC.CREATEINDEX"
    ∷ text "VEC.REBUILD"
    ∷ text "VEC.STATS"
    ∷ text "VEC.ADDVEC"
    ∷ text "VEC.SUBVEC"
    ∷ text "VEC.DOT"
    ∷ text "EMB.REGISTER"
    ∷ text "EMB.LIST"
    ∷ text "VEC.EMBEDADD"
    ∷ text "XADD"
    ∷ text "XRANGE"
    ∷ text "XLEN"
    ∷ text "XREAD"
    ∷ text "XGROUP"
    ∷ text "XREADGROUP"
    ∷ text "XACK"
    ∷ text "XDEL"
    ∷ text "XTRIM"
    ∷ text "XPENDING"
    ∷ text "XCLAIM"
    ∷ text "XINFO"
    ∷ text "PFADD"
    ∷ text "PFCOUNT"
    ∷ text "PFMERGE"
    ∷ text "DOC.INDEXCREATE"
    ∷ text "DOC.INDEXDROP"
    ∷ text "DOC.INDEXLIST"
    ∷ text "DOC.INDEXADD"
    ∷ text "DOC.INDEXDEL"
    ∷ text "DOC.INDEXUPDATE"
    ∷ text "DOC.INDEXREBUILD"
    ∷ text "DOC.SEARCH"
    ∷ text "DOC.AGGREGATE"
    ∷ text "CF.RESERVE"
    ∷ text "CF.ADD"
    ∷ text "CF.ADDNX"
    ∷ text "CF.EXISTS"
    ∷ text "CF.DEL"
    ∷ text "CF.MADD"
    ∷ text "CF.MEXISTS"
    ∷ text "CF.INSERT"
    ∷ text "CF.INSERTNX"
    ∷ []
