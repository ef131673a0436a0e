-- ===== src/Tests/Server.antt =====
-- A server with a password, and what its connections do.
use redis_clone_js.Prelude.{
  ℕ, ◌≡◌, refl, true, false, Option, none, some, List, [], ◌∷◌, ◌++◌, map, length, ◌==◌,
  if◌then◌else◌,
}
use redis_clone_js.Prelude.Text.{Text, text, text_eq, to_upper}
use redis_clone_js.Map
use redis_clone_js.Map.{Map}
use redis_clone_js.SetOf
use redis_clone_js.Cmd.{◌>>=◌, modify}
use redis_clone_js.Keyspace
use redis_clone_js.Keyspace.Options.{set_options}
use redis_clone_js.Protocol.{crlf, encode_simple_string, encode_bulk_string, utf8_length}
use redis_clone_js.Number.{show_ℕ}
use redis_clone_js.Store.{Store, string, str, get_entry, ensure_string, ensured, clear_expiry, put}
use redis_clone_js.Acl.Rules.{new_user}
use redis_clone_js.Acl.{init_users, requires_auth}
use redis_clone_js.Acl.Check.{check, permitted}
use redis_clone_js.Parser.Logs.{Command}
use redis_clone_js.Server.Databases.{db_prefix}
use redis_clone_js.Server.Backlog.{init_backlog}
use redis_clone_js.Server.Session.{Env, Server, Conn, init_conn, written}
use redis_clone_js.Server.Handler.{ran, flushdb, run_queue}
use redis_clone_js.Server.Step.{handle_all}
use redis_clone_js.Server.Access.{login_reply, handle_all-login, user_of}
use redis_clone_js.Server.Flush.{flushdb-get}
use redis_clone_js.Server.Transactions.{queued_of, AllSendable, is_own_command, with_outside}
use redis_clone_js.Server.Unguarded.{exec-ignores_access}
use redis_clone_js.Server.Exec.{ok_reply, queued_reply}
use redis_clone_js.Server.Atomic.{SentAlone, exec-sends_alone}
use redis_clone_js.Tests.Data.{engine}
use redis_clone_js.Tests.Utf8.{padded}

abbrev env : Env ℕ
env = record {
  engine = engine;
  hash = λ password. text "sha256:" ++ password;
  encode = padded.encode;
}

-- A master with the key a of database 0 and the key b of database 1.
abbrev two_databases : Store ℕ
two_databases = record {
  kv =
      (text "{db0}:a", record { type = string; value = str (text "1") })
      ∷ (text "{db1}:b", record { type = string; value = str (text "2") })
      ∷ [];
  expires = [];
  events = [];
}

abbrev master : Option Text → Server ℕ
master password = record {
  users = init_users env.hash password;
  store = two_databases;
  replica = false;
  aof = true;
  log = [];
  backlog = init_backlog 1024;
}

abbrev set_a : Command
set_a = some (text "SET") ∷ some (text "a") ∷ some (text "3") ∷ []

abbrev get_a : Command
get_a = some (text "GET") ∷ some (text "a") ∷ []

asks_for_password : requires_auth (master (some (text "pw"))).users ≡ true
unfolding requires_auth init_users Map.get Map.set text_eq SetOf.add new_user
asks_for_password = refl

abbrev logged_in : Conn
logged_in = record init_conn { authed = true }

abbrev login : Command
login = some (text "auth") ∷ some (text "pw") ∷ []

abbrev wrong_login : Command
wrong_login = some (text "AUTH") ∷ some (text "nobody") ∷ some (text "pw") ∷ []

handle_all-login_example :
    (messages : List Text) × (last : Text) × (length messages ≡ 2)
    × (handle_all env 7 (set_a ∷ wrong_login ∷ login ∷ []) init_conn (master (some (text "pw"))) ≡ (
      logged_in,
      master (some (text "pw")),
      map (login_reply false) messages ++ login_reply true last ∷ [],
    ))
unfolding init_users Map.get Map.set text_eq to_upper SetOf.add SetOf.has new_user
handle_all-login_example =
    handle_all-login env 7 (set_a ∷ wrong_login ∷ []) login init_conn (master (some (text "pw")))
      asks_for_password refl (refl, (refl, tt))

flushdb-get_example :
    Map.get ((flushdb env 7 init_conn (master none)).1).store.kv (db_prefix 1 ++ text "b")
    ≡ (if 0 == 1 then none else Map.get two_databases.kv (db_prefix 1 ++ text "b"))
flushdb-get_example = flushdb-get env 7 1 init_conn (master none) (text "b")

may_run_everything :
    (upper : Text) (keys : List Text)
    → check (master none).users (user_of env 7 logged_in) upper keys ≡ permitted
unfolding check init_users Map.get Map.set text_eq
may_run_everything upper keys = refl

sendable : AllSendable (set_a ∷ get_a ∷ [])
unfolding is_own_command SetOf.has text_eq to_upper
sendable = ((refl, refl, refl), ((refl, refl, refl), tt))

abbrev after_exec : Server ℕ
after_exec = (run_queue env 7 0 (map queued_of (set_a ∷ get_a ∷ [])) (master none)).0

runs :
    run_queue env 7 0 (map queued_of (set_a ∷ get_a ∷ [])) (master none)
    ≡ (after_exec, ran 2 (text "+OK" ++ (crlf ++ (text "$1" ++ (crlf ++ (text "3" ++ crlf))))))
unfolding run_queue to_upper text_eq Keyspace.set set_options ◌>>=◌ get_entry modify Keyspace.get
    ensure_string Map.get encode_simple_string clear_expiry Map.delete put Map.set ensured
    encode_bulk_string utf8_length show_ℕ
runs = refl

exec-sends_alone_example :
    SentAlone env 7
      (set_a ∷ get_a ∷ [])
      logged_in
      (master none)
      after_exec
      2
      (text "+OK" ++ (crlf ++ (text "$1" ++ (crlf ++ (text "3" ++ crlf)))))
    × (handle_all env 7
          ((some (text "MULTI") ∷ []) ∷ set_a ∷ get_a ∷ (some (text "EXEC") ∷ []) ∷ [])
          logged_in
          (master none)
        ≡ (
          logged_in,
          after_exec,
          ok_reply
              ∷ queued_reply
              ∷ queued_reply
              ∷ written (
                  b'*' ∷ show_ℕ 2
                  ++ (crlf
                      ++ (text "+OK" ++ (crlf ++ (text "$1" ++ (crlf ++ (text "3" ++ crlf)))))))
              ∷ [],
        ))
    × (after_exec.backlog ≡ (master none).backlog)
exec-sends_alone_example =
    exec-sends_alone env 7 (set_a ∷ get_a ∷ []) logged_in (master none) after_exec 2
      (text "+OK" ++ (crlf ++ (text "$1" ++ (crlf ++ (text "3" ++ crlf))))) refl refl refl
      may_run_everything sendable runs

-- A replica whose users may run nothing.
abbrev locked : Server ℕ
locked = with_outside [] true (init_backlog 7) (master none)

exec-ignores_access_example :
    handle_all env 7
      ((some (text "MULTI") ∷ []) ∷ set_a ∷ get_a ∷ (some (text "EXEC") ∷ []) ∷ [])
      logged_in
      locked
    ≡ (
      logged_in,
      with_outside [] true (init_backlog 7) after_exec,
      ok_reply
          ∷ queued_reply
          ∷ queued_reply
          ∷ written (
              b'*' ∷ show_ℕ 2
              ++ (crlf ++ (text "+OK" ++ (crlf ++ (text "$1" ++ (crlf ++ (text "3" ++ crlf)))))))
          ∷ [],
    )
exec-ignores_access_example =
    exec-ignores_access env 7 (set_a ∷ get_a ∷ []) logged_in [] true (init_backlog 7) (master none)
      after_exec 2 (text "+OK" ++ (crlf ++ (text "$1" ++ (crlf ++ (text "3" ++ crlf))))) refl refl
      sendable runs
