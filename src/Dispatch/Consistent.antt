-- ===== src/Dispatch/Consistent.antt =====
-- The handlers of the tables of `dispatch` (src/core/DataStore.js), and the invariant of the two maps.
use redis_clone_js.Prelude.{
  ℕ, ◌≡◌, ap, sym, ◌∙◌, subst, some, if◌then◌else◌, true, false, List, [], ◌∷◌, ◌++◌, Bool-cases,
  inl, inr,
}
use mathlib.Core.Option.{some-injective}
use redis_clone_js.Prelude.Text.{Text, text_eq, to_upper}
use redis_clone_js.Cmd.{pure}
use redis_clone_js.Cmd.Keeps.{Keeps}
use redis_clone_js.Store.{Store, Handler}
use redis_clone_js.Store.Consistent.{IsConsistent}
use redis_clone_js.Dispatch.{
  Engine, keyspace_commands, string_commands, list_commands, hash_commands, set_commands,
  zset_commands, find_handler, commands, run_handler, dispatch,
}
use redis_clone_js.Keyspace.Consistent.{
  set-Keeps, get-Keeps, del-Keeps, exists-Keeps, type-Keeps, dbsize-Keeps, rename-Keeps,
  renamenx-Keeps, flush-Keeps, keys-Keeps,
}
use redis_clone_js.Strings.Consistent.{
  append-Keeps, strlen-Keeps, incr-Keeps, decr-Keeps, incrby-Keeps, decrby-Keeps, getrange-Keeps,
  setrange-Keeps, mget-Keeps, mset-Keeps, setnx-Keeps, msetnx-Keeps, setex-Keeps, psetex-Keeps,
  getset-Keeps, getdel-Keeps, getex-Keeps, incrbyfloat-Keeps, substr-Keeps,
}
use redis_clone_js.Lists.Consistent.{
  lpush-Keeps, rpush-Keeps, lpop-Keeps, rpop-Keeps, lrange-Keeps, lindex-Keeps, lset-Keeps,
  llen-Keeps, ltrim-Keeps, lrem-Keeps, rpoplpush-Keeps, lmove-Keeps,
}
use redis_clone_js.Ttl.Consistent.{
  expire-Keeps, ttl-Keeps, persist-Keeps, pttl-Keeps, pexpire-Keeps, expireat-Keeps,
  pexpireat-Keeps,
}
use redis_clone_js.Hashes.Consistent.{
  hset-Keeps, hmset-Keeps, hget-Keeps, hdel-Keeps, hexists-Keeps, hlen-Keeps, hkeys-Keeps,
  hvals-Keeps, hgetall-Keeps, hmget-Keeps, hstrlen-Keeps,
}
use redis_clone_js.Sets.Consistent.{
  sadd-Keeps, srem-Keeps, sismember-Keeps, smismember-Keeps, smembers-Keeps, scard-Keeps,
  sinter-Keeps, sunion-Keeps, sdiff-Keeps, smove-Keeps, sunionstore-Keeps, sinterstore-Keeps,
  sdiffstore-Keeps,
}
use redis_clone_js.ZSets.Consistent.{
  zadd-Keeps, zrem-Keeps, zincrby-Keeps, zrank-Keeps, zrevrank-Keeps, zscore-Keeps, zcard-Keeps,
  zrange-Keeps, zrevrange-Keeps, zpop-Keeps,
}

infixr 4 ◌&◌
abbrev ◌&◌ : {A B : Type 0} → A → B → A × B
a & b = (a, b)

module _ {Score : Type 0} where
  -- Each handler of the table keeps the invariant.
  abbrev AllKeep : List (Text × (List Text → Handler Score)) → Type 0
  AllKeep [] = Unit
  AllKeep ((name, handler) ∷ table) =
      ((args : List Text) → Keeps (IsConsistent {Score = Score}) (handler args)) × AllKeep table

  AllKeep-append :
      (t u : List (Text × (List Text → Handler Score))) → AllKeep t → AllKeep u → AllKeep (t ++ u)
  AllKeep-append [] u a b = b
  AllKeep-append ((name, handler) ∷ t) u a b = (a.0, AllKeep-append t u a.1 b)

module _ {Score : Type 0} (e : Engine Score) (now : ℕ) where
  keyspace_commands-AllKeep : AllKeep (keyspace_commands e now)
  keyspace_commands-AllKeep =
      unfold keyspace_commands in
      set-Keeps now
      & get-Keeps now
      & del-Keeps now
      & exists-Keeps now
      & expire-Keeps now
      & ttl-Keeps now
      & persist-Keeps now
      & pttl-Keeps now
      & pexpire-Keeps now
      & expireat-Keeps now
      & pexpireat-Keeps now
      & type-Keeps now
      & dbsize-Keeps now
      & rename-Keeps now
      & renamenx-Keeps now
      & flush-Keeps
      & flush-Keeps
      & keys-Keeps e.regex_test now
      & tt

  string_commands-AllKeep : AllKeep (string_commands e now)
  string_commands-AllKeep =
      unfold string_commands in
      append-Keeps now
      & strlen-Keeps now
      & incr-Keeps e.doubles now
      & decr-Keeps e.doubles now
      & incrby-Keeps e.doubles now
      & decrby-Keeps e.doubles now
      & getrange-Keeps now
      & setrange-Keeps now
      & mget-Keeps now
      & mset-Keeps
      & setnx-Keeps now
      & msetnx-Keeps now
      & setex-Keeps now
      & psetex-Keeps
      & getset-Keeps now
      & getdel-Keeps now
      & getex-Keeps now
      & incrbyfloat-Keeps e.floats now
      & substr-Keeps now
      & tt

  list_commands-AllKeep : AllKeep (list_commands e now)
  list_commands-AllKeep =
      unfold list_commands in
      lpush-Keeps now
      & rpush-Keeps now
      & lpop-Keeps now
      & rpop-Keeps now
      & lrange-Keeps now
      & lindex-Keeps now
      & lset-Keeps now
      & llen-Keeps now
      & ltrim-Keeps now
      & lrem-Keeps now
      & rpoplpush-Keeps now
      & lmove-Keeps now
      & tt

  hash_commands-AllKeep : AllKeep (hash_commands e now)
  hash_commands-AllKeep =
      unfold hash_commands in
      hset-Keeps now
      & hmset-Keeps now
      & hget-Keeps now
      & hdel-Keeps now
      & hexists-Keeps now
      & hlen-Keeps now
      & hkeys-Keeps now
      & hvals-Keeps now
      & hgetall-Keeps now
      & hmget-Keeps now
      & hstrlen-Keeps now
      & tt

  set_commands-AllKeep : AllKeep (set_commands e now)
  set_commands-AllKeep =
      unfold set_commands in
      sadd-Keeps now
      & srem-Keeps now
      & sismember-Keeps now
      & smismember-Keeps now
      & smembers-Keeps now
      & scard-Keeps now
      & sinter-Keeps now
      & sunion-Keeps now
      & sdiff-Keeps now
      & smove-Keeps now
      & sunionstore-Keeps now
      & sinterstore-Keeps now
      & sdiffstore-Keeps now
      & tt

  zset_commands-AllKeep : AllKeep (zset_commands e now)
  zset_commands-AllKeep =
      unfold zset_commands in
      zadd-Keeps now e.floats
      & zrem-Keeps now
      & zincrby-Keeps now e.floats
      & zrank-Keeps now
      & zrevrank-Keeps now
      & zscore-Keeps now e.floats
      & zcard-Keeps now
      & zrange-Keeps now e.floats
      & zrevrange-Keeps now e.floats
      & zpop-Keeps now true
      & zpop-Keeps now false
      & tt

  commands-AllKeep : AllKeep (commands e now)
  commands-AllKeep = AllKeep-append _ _ keyspace_commands-AllKeep (
      AllKeep-append _ _ string_commands-AllKeep (
        AllKeep-append _ _ list_commands-AllKeep (
          AllKeep-append _ _ hash_commands-AllKeep
            (AllKeep-append _ _ set_commands-AllKeep zset_commands-AllKeep))))

  found-Keeps :
      (table : List (Text × (List Text → Handler Score))) (op : Text)
      (handler : List Text → Handler Score) (args : List Text)
      → AllKeep table
      → find_handler e now table op ≡ some handler
      → Keeps IsConsistent (handler args)
  unfolding find_handler
  found-Keeps [] op handler args a h = absurd (cc)
  found-Keeps ((name, first) ∷ table) op handler args a h = elim (Bool-cases (text_eq op name)) [
    | inl found ↦
        let same : some first ≡ some handler =
          ap (λ b. if b then some first else find_handler e now table op) (sym found) ∙ h in
        subst (λ f. Keeps IsConsistent (f args)) (some-injective first handler same) (a.0 args)
    | inr other ↦
        found-Keeps table op handler args a.1
          (ap (λ b. if b then some first else find_handler e now table op) (sym other) ∙ h)
  ]

  -- A command that has a handler in the tables, whatever its arguments and however it ends, keeps the
  -- store consistent: no key stands twice in a map, and only present keys have a deadline. These are
  -- the commands on keys, deadlines, strings, lists, hashes, sets and sorted sets that the tables
  -- name; nothing is said of the commands of `unmodelled_commands`.
  pub dispatch-IsConsistent :
      (command : Text) (args : List Text) (handler : List Text → Handler Score) (s : Store Score)
      → find_handler e now (commands e now) (to_upper command) ≡ some handler
      → IsConsistent s
      → IsConsistent (dispatch e now command args s).1
  dispatch-IsConsistent [] args handler s h c = unfold dispatch pure in c
  dispatch-IsConsistent (x ∷ command) args handler s h c =
      let keeps =
        (found-Keeps (commands e now) (to_upper (x ∷ command)) handler args commands-AllKeep h).at s
          c in
      let run : dispatch e now (x ∷ command) args s ≡ handler args s =
        unfold dispatch run_handler in ap (λ o. run_handler e now o (x ∷ command) args s) h in
      subst (λ r. IsConsistent r.1) (sym run) keeps
