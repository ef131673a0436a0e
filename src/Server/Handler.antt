-- ===== src/Server/Handler.antt =====
-- src/server/Server.js: what is done with a message of a connection. CLIENT, SCAN, XREAD, SAVE, the
-- replication commands, publish and subscribe, the blocking pops, INFO, CONFIG, KEYS, RANDOMKEY and
-- SLOWLOG end as `elsewhere`, where the source handles them.
use redis_clone_js.Prelude.{
  ℕ, suc, Bool, true, false, ◌&&◌, Option, none, some, List, [], ◌∷◌, ◌++◌, map, length, drop, ltb,
  ◌==◌, if◌then◌else◌,
}
use redis_clone_js.Prelude.Text.{Text, text, text_eq, to_upper}
use redis_clone_js.Prelude.Int.{ℤ, pos, negsuc}
use redis_clone_js.Number.{parse_int, show_ℕ}
use redis_clone_js.Map.{Map}
use redis_clone_js.SetOf
use redis_clone_js.Cmd.{Outcome}
use redis_clone_js.Protocol.{
  crlf, encode_error, encode_integer, encode_shown, encode_simple_string, encode_bulk_string,
  encode_array_of_bulk_strings,
}
use redis_clone_js.Store.{Store, Entry, remove}
use redis_clone_js.Dispatch.{dispatch}
use redis_clone_js.Acl.Rules.{User}
use redis_clone_js.Acl.{
  AuthResult, granted, invalid_user, invalid_password, authenticate, del_user, set_user,
  default_name,
}
use redis_clone_js.Acl.Check.{users_list, list_users}
use redis_clone_js.Server.Tables.{write_commands}
use redis_clone_js.Server.Databases.{db_prefix, rewrite_args_for_db, or_empty}
use redis_clone_js.Server.Keys.{or_null}
use redis_clone_js.Server.Session.{
  Env, Server, Conn, Queued, Reply, written, threw, elsewhere, reply_of, succeeds, append_log,
  logged,
}

abbrev ok : Text
ok = text "+OK" ++ crlf

-- String(args[0] || '')
abbrev first_text : List (Option Text) → Text
first_text [] = []
first_text (a ∷ args) = or_empty a

unfoldable pub starts_with : Text → Text → Bool
starts_with [] t = true
starts_with (c ∷ prefix) [] = false
starts_with (c ∷ prefix) (d ∷ t) = (c == d) && starts_with prefix t

-- The replies of EXEC, one behind the other, or why it stopped.
pub data Ran : Type 0 where
  ran : ℕ → Text → Ran
  stopped : Reply → Ran

module _ {Score : Type 0} where
  -- The stored keys of a database, expired ones included.
  unfoldable pub keys_of_db : Text → Map (Entry Score) → List Text
  unfolding starts_with
  keys_of_db prefix [] = []
  keys_of_db prefix ((key, entry) ∷ kv) =
      let keys = keys_of_db prefix kv in if starts_with prefix key then key ∷ keys else keys

  abbrev pub remove_all : List Text → Store Score → Store Score
  remove_all [] st = st
  remove_all (key ∷ keys) st = remove_all keys (remove key st)

module _ {Score : Type 0} (env : Env Score) (now : ℕ) where
  -- A queued command of EXEC: no role, no access control list, no backlog.
  unfoldable pub finish_queued :
      Queued → Bool → Server Score → Outcome Text × Store Score → Server Score × Reply
  unfolding succeeds
  finish_queued (qc, qargs) write s (o, store) = (
    append_log (s.aof && (write && succeeds (reply_of o))) (logged qc qargs)
        (record s { store = store }),
    reply_of o,
  )

  unfoldable pub run_queued : ℕ → Queued → Server Score → Server Score × Reply
  unfolding dispatch rewrite_args_for_db finish_queued
  run_queued db (qc, qargs) s =
      let upper = to_upper (or_null qc) in
      finish_queued (qc, qargs) (SetOf.has write_commands upper) s
        (dispatch env.engine now upper (rewrite_args_for_db upper qargs db) s.store)

  abbrev pub cons_reply : Text → Server Score × Ran → Server Score × Ran
  cons_reply t (s, ran n replies) = (s, ran (suc n) (t ++ replies))
  cons_reply t (s, stopped r) = (s, stopped r)

  abbrev pub after_queued :
      (Server Score → Server Score × Ran) → Server Score × Reply → Server Score × Ran
  after_queued rest (s, written t) = cons_reply t (rest s)
  after_queued rest (s, threw) = (s, stopped threw)
  after_queued rest (s, elsewhere) = (s, stopped elsewhere)

  unfoldable pub run_queue : ℕ → List Queued → Server Score → Server Score × Ran
  unfolding run_queued
  run_queue db [] s = (s, ran 0 [])
  run_queue db (q ∷ queue) s = after_queued (run_queue db queue) (run_queued db q s)

  abbrev Step : Type 0
  Step = Conn × Server Score × Reply

  abbrev pub say : Conn → Server Score → Text → Step
  say conn s t = (conn, s, written t)

  abbrev pub refuse : Conn → Server Score → Text → Step
  refuse conn s message = (conn, s, written (encode_error message))

  abbrev pub after_run : Conn → Server Score × Ran → Step
  after_run conn (s, ran n replies) =
      say (record conn { in_multi = false; queue = [] }) s (b'*' ∷ show_ℕ n ++ (crlf ++ replies))
  after_run conn (s, stopped r) = (conn, s, r)

  unfoldable pub multi : Conn → Server Score → Step
  multi conn s =
      if conn.in_multi
      then refuse conn s (text "MULTI calls can not be nested")
      else say (record conn { in_multi = true; queue = [] }) s ok

  unfoldable pub discard : Conn → Server Score → Step
  discard conn s = say (record conn { in_multi = false; queue = [] }) s ok

  unfoldable pub exec : Conn → Server Score → Step
  unfolding run_queue show_ℕ
  exec conn s =
      if conn.in_multi
      then after_run conn (run_queue conn.db conn.queue s)
      else refuse conn s (text "EXEC without MULTI")

  abbrev select_db : Conn → Server Score → Option ℤ → Step
  select_db conn s none = refuse conn s (text "DB index is out of range")
  select_db conn s (some (negsuc n)) = refuse conn s (text "DB index is out of range")
  select_db conn s (some (pos n)) =
      if ltb 15 n
      then refuse conn s (text "DB index is out of range")
      else say (record conn { db = n }) s ok

  unfoldable pub select : List (Option Text) → Conn → Server Score → Step
  unfolding parse_int
  select (a ∷ []) conn s = select_db conn s (parse_int (or_null a))
  select _ conn s = refuse conn s (text "wrong number of arguments for 'SELECT'")

  abbrev pub auth_result : Text → Conn → Server Score → AuthResult → Step
  auth_result name conn s (granted user) = say (record conn { authed = true; user = name }) s ok
  auth_result name conn s invalid_user = refuse conn s (text "invalid user")
  auth_result name conn s invalid_password = refuse conn s (text "invalid password")

  unfoldable pub auth : List (Option Text) → Conn → Server Score → Step
  unfolding authenticate
  auth (password ∷ []) conn s =
      auth_result default_name conn s (authenticate env.hash s.users default_name password)
  auth (name ∷ password ∷ []) conn s =
      auth_result (or_null name) conn s (authenticate env.hash s.users (or_null name) password)
  auth _ conn s = refuse conn s (text "wrong number of arguments for 'AUTH'")

  abbrev removed : Conn → Server Score → Map User × ℤ → Step
  removed conn s (users, n) = say conn (record s { users = users }) (encode_integer n)

  abbrev del_user_args : List (Option Text) → Conn → Server Score → Step
  del_user_args (name ∷ []) conn s = removed conn s (del_user s.users (or_null name))
  del_user_args _ conn s = refuse conn s (text "wrong number of arguments for 'ACL DELUSER'")

  abbrev set_user_args : List (Option Text) → Conn → Server Score → Step
  set_user_args [] conn s = refuse conn s (text "wrong number of arguments for 'ACL SETUSER'")
  set_user_args (name ∷ rules) conn s =
      say conn (record s { users = set_user env.hash s.users (or_null name) (map or_null rules) })
        ok

  -- The ACL command, before any check of the permissions.
  unfoldable pub acl : List (Option Text) → Conn → Server Score → Step
  unfolding del_user set_user users_list list_users encode_array_of_bulk_strings encode_bulk_string
      encode_integer
  acl args conn s =
      let sub = to_upper (first_text args) in
      if text_eq sub (text "WHOAMI")
      then say conn s
          (encode_bulk_string (some (if text_eq conn.user [] then default_name else conn.user)))
      else if text_eq sub (text "USERS")
      then say conn s (encode_array_of_bulk_strings (map some (users_list s.users)))
      else if text_eq sub (text "LIST")
      then say conn s (encode_array_of_bulk_strings (map some (list_users s.users)))
      else if text_eq sub (text "DELUSER")
      then del_user_args (drop 1 args) conn s
      else if text_eq sub (text "SETUSER")
      then set_user_args (drop 1 args) conn s
      else refuse conn s (text "unknown ACL subcommand")

  unfoldable pub ping : List (Option Text) → Conn → Server Score → Step
  ping [] conn s = say conn s (encode_simple_string (text "PONG"))
  ping (a ∷ args) conn s =
      say conn s
        (encode_simple_string (if text_eq (or_empty a) [] then text "PONG" else or_empty a))

  -- `$` and the number of code units, which is not always the number of bytes.
  unfoldable pub echo : List (Option Text) → Conn → Server Score → Step
  unfolding show_ℕ
  echo (a ∷ []) conn s =
      say conn s (b'$' ∷ show_ℕ (length (or_null a)) ++ (crlf ++ (or_null a ++ crlf)))
  echo _ conn s = refuse conn s (text "wrong number of arguments for 'ECHO'")

  unfoldable pub dbsize : Conn → Server Score → Step
  unfolding keys_of_db encode_shown show_ℕ db_prefix
  dbsize conn s =
      say conn s (encode_shown (show_ℕ (length (keys_of_db (db_prefix conn.db) s.store.kv))))

  unfoldable pub flushdb : Conn → Server Score → Step
  unfolding keys_of_db remove db_prefix
  flushdb conn s =
      say conn (record s { store = remove_all (keys_of_db (db_prefix conn.db) s.store.kv) s.store })
        ok
