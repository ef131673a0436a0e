-- ===== src/Server/Session.antt =====
-- src/server/Server.js: a connection, and the command that is dispatched for it. Notifications, client
-- tracking, the slow log and the sockets of the replicas are left out.
use redis_clone_js.Prelude.{
  ℕ, Bool, true, false, not, ◌&&◌, ◌||◌, Option, none, some, List, [], ◌∷◌, map, ◌==◌,
  if◌then◌else◌,
}
use redis_clone_js.Prelude.Text.{Text, text, text_eq, to_upper}
use redis_clone_js.Map.{Map}
use redis_clone_js.SetOf
use redis_clone_js.Cmd.{Outcome, returns, throws, unmodelled}
use redis_clone_js.Protocol.{encode_error, encode_array_of_bulk_strings}
use redis_clone_js.Store.{Store}
use redis_clone_js.Dispatch.{Engine, dispatch}
use redis_clone_js.Acl.Rules.{User}
use redis_clone_js.Acl.Check.{check, denial}
use redis_clone_js.Parser.{Bytes}
use redis_clone_js.Parser.Logs.{Command}
use redis_clone_js.Server.Tables.{write_commands}
use redis_clone_js.Server.Databases.{rewrite_args_for_db, or_empty}
use redis_clone_js.Server.Keys.{extract_keys_for_acl, or_null}
use redis_clone_js.Server.Backlog.{Backlog, append_to_backlog}

-- What the server takes from outside: the engine of the data store, SHA-256, UTF-8.
pub record Env (Score : Type 0) : Type 0 where
  pub engine : Engine Score
  pub hash : Text → Text
  pub encode : Text → Bytes

-- The server: `aof` is off or on, `log` are the commands handed to `appendCommand`, the last one
-- first.
pub record Server (Score : Type 0) : Type 0 where
  pub users : Map User
  pub store : Store Score
  pub replica : Bool
  pub aof : Bool
  pub log : List Command
  pub backlog : Backlog

-- A queued command of a transaction.
abbrev pub Queued : Type 0
Queued = Option Text × List (Option Text)

-- The `state` of a connection, with `__authed` and `__user` of its socket.
pub record Conn : Type 0 where
  pub in_multi : Bool
  pub queue : List Queued
  pub db : ℕ
  pub authed : Bool
  pub user : Text

abbrev pub init_conn : Conn
init_conn = record { in_multi = false; queue = []; db = 0; authed = false; user = text "default" }

-- What goes to the socket; `threw`: the exception of a handler, whose message the client gets;
-- `elsewhere`: the model does not follow this command.
pub data Reply : Type 0 where
  written : Text → Reply
  threw elsewhere : Reply

abbrev pub reply_of : Outcome Text → Reply
reply_of (returns t) = written t
reply_of throws = threw
reply_of unmodelled = elsewhere

-- The commands that are marked as writes behind their execution.
abbrev pub json_write_commands : List Text
json_write_commands =
    text "JSON.SET"
    ∷ text "JSON.DEL"
    ∷ text "JSON.ARRAPPEND"
    ∷ text "JSON.ARRPOP"
    ∷ text "JSON.ARRINSERT"
    ∷ text "JSON.ARRTRIM"
    ∷ text "JSON.NUMINCRBY"
    ∷ text "JSON.FORGET"
    ∷ text "JSON.NUMMULTBY"
    ∷ text "JSON.TOGGLE"
    ∷ text "JSON.CLEAR"
    ∷ []

-- String(response).startsWith("-ERR")
unfoldable pub is_error : Text → Bool
is_error (a ∷ b ∷ c ∷ d ∷ s) = a == b'-' && (b == b'E' && (c == b'R' && d == b'R'))
is_error s = false

-- A write whose reply is no error.
unfoldable pub succeeds : Reply → Bool
unfolding is_error
succeeds (written t) = not (is_error t)
succeeds threw = false
succeeds elsewhere = false

-- The command as it is logged: String(cmd), and "" for a null argument.
abbrev pub logged : Option Text → List (Option Text) → Command
logged cmd args = some (or_null cmd) ∷ map (λ a. some (or_empty a)) args

-- The payload for the replicas: String of everything.
abbrev pub payload : Option Text → List (Option Text) → Text
payload cmd args =
    encode_array_of_bulk_strings (some (or_null cmd) ∷ map (λ a. some (or_null a)) args)

module _ {Score : Type 0} where
  abbrev pub append_log : Bool → Command → Server Score → Server Score
  append_log true c s = record s { log = c ∷ s.log }
  append_log false c s = s

  abbrev pub append_payload : Bool → Bytes → Server Score → Server Score
  append_payload true p s = record s { backlog = append_to_backlog s.backlog p }
  append_payload false p s = s

module _ {Score : Type 0} (env : Env Score) (now : ℕ) where
  -- The log and the backlog behind a dispatched command.
  unfoldable pub record_write :
      Option Text → List (Option Text) → Bool → Server Score → Server Score
  unfolding encode_array_of_bulk_strings append_to_backlog
  record_write cmd args wrote s =
      append_payload (not s.replica && wrote) (env.encode (payload cmd args))
        (append_log (not s.replica && (s.aof && wrote)) (logged cmd args) s)

  -- From the dispatch on. An exception leaves nothing in the log.
  unfoldable pub finish_command :
      Option Text
      → List (Option Text)
      → Bool
      → Server Score
      → Outcome Text × Store Score
      → Server Score × Reply
  unfolding record_write succeeds
  finish_command cmd args write s (o, store) = (
    record_write cmd args (write && succeeds (reply_of o)) (record s { store = store }),
    reply_of o,
  )

  unfoldable pub run_command :
      Option Text → List (Option Text) → Conn → Server Score → Server Score × Reply
  unfolding dispatch rewrite_args_for_db finish_command
  run_command cmd args conn s =
      let upper = to_upper (or_null cmd) in
      finish_command cmd args
        (SetOf.has write_commands upper || SetOf.has json_write_commands upper) s
        (dispatch env.engine now (or_empty cmd) (rewrite_args_for_db upper args conn.db) s.store)

  abbrev pub denied_or :
      Option Text → (Server Score → Server Score × Reply) → Server Score → Server Score × Reply
  denied_or none run s = run s
  denied_or (some message) run s = (s, written (encode_error message))

  -- The normal execution: the guard of a replica, the access control list, and the command.
  unfoldable pub execute :
      Option Text → List (Option Text) → Conn → Server Score → Server Score × Reply
  unfolding run_command check extract_keys_for_acl
  execute cmd args conn s =
      let upper = to_upper (or_null cmd) in
      let user = if text_eq conn.user [] then text "default" else conn.user in
      if s.replica && SetOf.has write_commands upper
      then (s, written (encode_error (text "READONLY You can't write against a read only replica")))
      else denied_or (denial (check s.users user upper (extract_keys_for_acl upper args)))
          (run_command cmd args conn) s
