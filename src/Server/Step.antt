-- ===== src/Server/Step.antt =====
-- src/server/Server.js: the branches of the handler of a connection, in their order, and a row of
-- messages.
use redis_clone_js.Prelude.{ℕ, not, ◌&&◌, Option, none, some, List, [], ◌∷◌, ◌++◌, if◌then◌else◌}
use redis_clone_js.Prelude.Text.{Text, text, text_eq, to_upper}
use redis_clone_js.Map
use redis_clone_js.Map.{Map}
use redis_clone_js.SetOf
use redis_clone_js.Protocol.{encode_error, encode_simple_string}
use redis_clone_js.Acl.{requires_auth}
use redis_clone_js.Parser.Logs.{Command}
use redis_clone_js.Server.Keys.{or_null}
use redis_clone_js.Server.Session.{Env, Server, Conn, Reply, written, threw, elsewhere, execute}
use redis_clone_js.Server.Handler.{
  say, refuse, multi, discard, exec, select, auth, acl, ping, echo, dbsize, flushdb,
}

-- The commands that the connection handles itself and the model does not follow.
abbrev pub other_commands : List Text
other_commands =
    text "CLIENT"
    ∷ text "SCAN"
    ∷ text "XREAD"
    ∷ text "SAVE"
    ∷ text "BGSAVE"
    ∷ text "REPLICAOF"
    ∷ text "PSYNC"
    ∷ text "SYNC"
    ∷ text "SUBSCRIBE"
    ∷ text "UNSUBSCRIBE"
    ∷ text "PUBLISH"
    ∷ text "BLPOP"
    ∷ text "BRPOP"
    ∷ text "INFO"
    ∷ text "CONFIG"
    ∷ text "KEYS"
    ∷ text "RANDOMKEY"
    ∷ text "SLOWLOG"
    ∷ []

module _ {Score : Type 0} (env : Env Score) (now : ℕ) where
  abbrev pub returned : Conn → Server Score × Reply → Conn × Server Score × Reply
  returned conn (s, r) = (conn, s, r)

  -- Queueing inside a transaction, or the normal execution.
  unfoldable pub queue_or_execute :
      Option Text → List (Option Text) → Conn → Server Score → Conn × Server Score × Reply
  unfolding execute
  queue_or_execute cmd args conn s =
      if conn.in_multi
      then say env now (record conn { queue = conn.queue ++ (cmd, args) ∷ [] }) s
          (encode_simple_string (text "QUEUED"))
      else returned conn (execute env now cmd args conn s)

  abbrev pub Action : Type 0
  Action = Conn → Server Score → Conn × Server Score × Reply

  -- The commands that the connection handles itself; the tests of the name are tried in turn, and
  -- no two of them have the same name.
  unfoldable pub own_actions : List (Option Text) → Map Action
  unfolding select ping echo auth acl dbsize flushdb multi discard exec
  own_actions args =
      (text "SELECT", select env now args)
      ∷ (text "PING", ping env now args)
      ∷ (text "ECHO", echo env now args)
      ∷ (text "AUTH", auth env now args)
      ∷ (text "ACL", acl env now args)
      ∷ (text "REPLCONF", λ conn s. say env now conn s (encode_simple_string (text "OK")))
      ∷ (text "DBSIZE", dbsize env now)
      ∷ (text "FLUSHDB", flushdb env now)
      ∷ (text "MULTI", multi env now)
      ∷ (text "DISCARD", discard env now)
      ∷ (text "EXEC", exec env now)
      ∷ []

  abbrev pub act : Option Action → Action → Action
  act none otherwise = otherwise
  act (some action) otherwise = action

  unfoldable pub handle_named : Text → Option Text → List (Option Text) → Action
  unfolding own_actions queue_or_execute SetOf.has Map.get
  handle_named upper cmd args conn s =
      if SetOf.has other_commands upper
      then (conn, s, elsewhere)
      else act (Map.get (own_actions args) upper) (queue_or_execute cmd args) conn s

  -- One message. A connection that must log in first can do nothing else. The empty array, whose
  -- command is undefined, is not followed behind the login.
  unfoldable pub handle : Command → Conn → Server Score → Conn × Server Score × Reply
  unfolding handle_named requires_auth encode_error
  handle [] conn s =
      if requires_auth s.users && not conn.authed
      then refuse env now conn s (text "NOAUTH Authentication required.")
      else (conn, s, elsewhere)
  handle (cmd ∷ args) conn s =
      let upper = to_upper (or_null cmd) in
      if requires_auth s.users && (not conn.authed && not (text_eq upper (text "AUTH")))
      then refuse env now conn s (text "NOAUTH Authentication required.")
      else handle_named upper cmd args conn s

  abbrev pub and_then :
      (Conn → Server Score → Conn × Server Score × List Reply)
      → Conn × Server Score × Reply
      → Conn × Server Score × List Reply
  and_then rest (conn, s, written t) =
      let (conn', s', rs) = rest conn s in (conn', s', written t ∷ rs)
  and_then rest (conn, s, threw) = (conn, s, threw ∷ [])
  and_then rest (conn, s, elsewhere) = (conn, s, elsewhere ∷ [])

  -- The messages of one chunk. An exception drops those behind it; the model ends at a command that
  -- it does not follow.
  unfoldable pub handle_all : List Command → Conn → Server Score → Conn × Server Score × List Reply
  unfolding handle
  handle_all [] conn s = (conn, s, [])
  handle_all (c ∷ commands) conn s = and_then (handle_all commands) (handle c conn s)
