-- ===== src/Server/Transactions.antt =====
-- src/server/Server.js: a queued command against the same command outside a transaction.
use redis_clone_js.Prelude.{
  ℕ, ◌≡◌, refl, ap, sym, ◌∙◌, Bool, true, false, not, ◌&&◌, ◌||◌, Option, none, some, List, [], ◌∷◌,
  if◌then◌else◌,
}
use redis_clone_js.Prelude.Text.{Text, text, to_upper}
use redis_clone_js.Map.{Map}
use redis_clone_js.SetOf
use redis_clone_js.Acl.Rules.{User}
use redis_clone_js.Protocol.{encode_error}
use redis_clone_js.Acl.Check.{permitted, check, denial}
use redis_clone_js.Parser.Logs.{Command}
use redis_clone_js.Cmd.{Outcome}
use redis_clone_js.Store.{Store}
use redis_clone_js.Dispatch.{dispatch}
use redis_clone_js.Server.Databases.{rewrite_args_for_db}
use redis_clone_js.Server.Tables.{write_commands}
use redis_clone_js.Server.Keys.{extract_keys_for_acl}
use redis_clone_js.Server.Backlog.{Backlog}
use redis_clone_js.Server.Session.{
  Env, Server, Conn, Queued, written, succeeds, json_write_commands, append_log, append_payload,
  logged, payload, reply_of, record_write, run_command, finish_command, denied_or, execute,
}
use redis_clone_js.Server.Handler.{finish_queued, run_queued}
use redis_clone_js.Server.Step.{other_commands}
use redis_clone_js.Server.Access.{user_of, read_only}

-- The commands that never reach the queue.
abbrev pub own_names : List Text
own_names =
    text "SELECT"
    ∷ text "PING"
    ∷ text "ECHO"
    ∷ text "AUTH"
    ∷ text "ACL"
    ∷ text "REPLCONF"
    ∷ text "DBSIZE"
    ∷ text "FLUSHDB"
    ∷ text "MULTI"
    ∷ text "DISCARD"
    ∷ text "EXEC"
    ∷ []

unfoldable pub is_own_command : Text → Bool
unfolding SetOf.has
is_own_command upper = SetOf.has other_commands upper || SetOf.has own_names upper

-- A command in upper case that reaches the data store and writes no JSON.
abbrev pub IsSendable : Command → Type 0
IsSendable [] = ⊥
IsSendable (none ∷ args) = ⊥
IsSendable (some name ∷ args) =
    (to_upper name ≡ name)
    × (is_own_command name ≡ false)
    × (SetOf.has json_write_commands name ≡ false)

abbrev pub AllSendable : List Command → Type 0
AllSendable [] = Unit
AllSendable (c ∷ commands) = IsSendable c × AllSendable commands

abbrev pub queued_of : Command → Queued
queued_of [] = (none, [])
queued_of (cmd ∷ args) = (cmd, args)

or_not : (x y : Bool) → y ≡ false → (x || y) ≡ x
or_not true y h = refl
or_not false y h = h

module _ {Score : Type 0} where
  abbrev pub with_backlog : Backlog → Server Score → Server Score
  with_backlog b s = record s { backlog = b }

  -- The parts of the server that no queued command reads.
  abbrev pub with_outside : Map User → Bool → Backlog → Server Score → Server Score
  with_outside users replica b s = record s { users = users; replica = replica; backlog = b }

  append_log-with_outside :
      (x : Bool) (c : Command) (users : Map User) (replica : Bool) (b : Backlog) (s : Server Score)
      → append_log x c (with_outside users replica b s)
        ≡ with_outside users replica b (append_log x c s)
  append_log-with_outside true c users replica b s = refl
  append_log-with_outside false c users replica b s = refl

  append_payload-with_backlog :
      (x : Bool) (p : List ℕ) (s : Server Score)
      → (b : Backlog) × (append_payload x p s ≡ with_backlog b s)
  append_payload-with_backlog true p s = (_, refl)
  append_payload-with_backlog false p s = (s.backlog, refl)

module _ {Score : Type 0} (env : Env Score) (now : ℕ) where
  finish_queued-with_outside :
      (q : Queued) (write : Bool) (users : Map User) (replica : Bool) (b : Backlog)
      (s : Server Score) (r : Outcome Text × Store Score)
      → finish_queued env now q write (with_outside users replica b s) r ≡ (
        with_outside users replica b (finish_queued env now q write s r).0,
        (finish_queued env now q write s r).1,
      )
  unfolding finish_queued
  finish_queued-with_outside (qc, qargs) write users replica b s (o, store) =
      ap (λ t. (t, reply_of o))
        (append_log-with_outside (s.aof && (write && succeeds (reply_of o))) (logged qc qargs) users
          replica b (record s { store = store }))

  pub run_queued-with_outside :
      (db : ℕ) (q : Queued) (users : Map User) (replica : Bool) (b : Backlog) (s : Server Score)
      → run_queued env now db q (with_outside users replica b s) ≡ (
        with_outside users replica b (run_queued env now db q s).0,
        (run_queued env now db q s).1,
      )
  unfolding run_queued
  run_queued-with_outside db (qc, qargs) users replica b s =
      finish_queued-with_outside (qc, qargs) _ users replica b s _

  finish_command-finish_queued :
      (cmd : Option Text) (args : List (Option Text)) (write : Bool) (s : Server Score)
      (r : Outcome Text × Store Score)
      → s.replica ≡ false
      → (b : Backlog) × (finish_command env now cmd args write s r ≡ (
        with_backlog b (finish_queued env now (cmd, args) write s r).0,
        (finish_queued env now (cmd, args) write s r).1,
      ))
  unfolding finish_command finish_queued record_write
  finish_command-finish_queued cmd args write s (o, store) master =
      let wrote = write && succeeds (reply_of o) in
      let logged_on = append_log (s.aof && wrote) (logged cmd args) (record s { store = store }) in
      let (b, e) = append_payload-with_backlog wrote (env.encode (payload cmd args)) logged_on in
      (
        b,
        ap
              (λ x. (
                append_payload (not x && wrote) (env.encode (payload cmd args)) (
                    append_log (not x && (s.aof && wrote)) (logged cmd args)
                      (record s { store = store })),
                reply_of o,
              ))
              master
            ∙ ap (λ t. (t, reply_of o)) e,
      )

  -- Outside a transaction the command does the same, and the backlog grows.
  run_command-run_queued :
      (name : Text) (args : List (Option Text)) (conn : Conn) (s : Server Score)
      → s.replica ≡ false
      → IsSendable (some name ∷ args)
      → (b : Backlog) × (run_command env now (some name) args conn s ≡ (
        with_backlog b (run_queued env now conn.db (some name, args) s).0,
        (run_queued env now conn.db (some name, args) s).1,
      ))
  unfolding run_command run_queued
  run_command-run_queued name args conn s master h =
      let upper = to_upper name in
      let r : Text → Outcome Text × Store Score =
        λ n. dispatch env.engine now n (rewrite_args_for_db upper args conn.db) s.store in
      let write = SetOf.has write_commands upper in
      let (b, e) = finish_command-finish_queued (some name) args write s (r upper) master in
      let same_write : (write || SetOf.has json_write_commands upper) ≡ write =
        or_not write (SetOf.has json_write_commands upper)
          (ap (SetOf.has json_write_commands) h.0 ∙ h.2) in
      (
        b,
        ap (λ w. finish_command env now (some name) args w s (r name)) same_write
            ∙ ap (λ n. finish_command env now (some name) args write s (r n)) (sym h.0)
            ∙ e,
      )

  -- A permitted command on a master.
  pub execute-run_queued :
      (name : Text) (args : List (Option Text)) (conn : Conn) (s : Server Score)
      → s.replica ≡ false
      → ((upper : Text) (keys : List Text)
          → check s.users (user_of env now conn) upper keys ≡ permitted)
      → IsSendable (some name ∷ args)
      → (b : Backlog) × (execute env now (some name) args conn s ≡ (
        with_backlog b (run_queued env now conn.db (some name, args) s).0,
        (run_queued env now conn.db (some name, args) s).1,
      ))
  unfolding execute
  execute-run_queued name args conn s master allowed h =
      let (b, e) = run_command-run_queued name args conn s master h in
      let write = SetOf.has write_commands (to_upper name) in
      (
        b,
        ap
              (λ g.
                if g && write
                then (s, written (encode_error read_only))
                else denied_or env now
                    (denial (
                      check s.users (user_of env now conn) (to_upper name)
                        (extract_keys_for_acl (to_upper name) args)))
                    (run_command env now (some name) args conn) s)
              master
            ∙ ap (λ c. denied_or env now (denial c) (run_command env now (some name) args conn) s)
                (allowed (to_upper name) (extract_keys_for_acl (to_upper name) args))
            ∙ e,
      )
