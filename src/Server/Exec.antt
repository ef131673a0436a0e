-- ===== src/Server/Exec.antt =====
-- src/server/Server.js: MULTI, commands and EXEC, against the same commands without MULTI.
use redis_clone_js.Prelude.{
  ℕ, ◌≡◌, refl, ap, sym, ◌∙◌, Bool, true, false, not, ◌&&◌, ◌||◌, Option, none, some, List, [], ◌∷◌,
  ◌++◌, map, arith, if◌then◌else◌, append_assoc, append-nil,
}
use redis_clone_js.Prelude.Text.{Text, text, text_eq, to_upper}
use redis_clone_js.Map
use redis_clone_js.Map.{Map}
use redis_clone_js.SetOf
use redis_clone_js.Protocol.{crlf, encode_error, encode_simple_string}
use redis_clone_js.Number.{show_ℕ}
use redis_clone_js.Acl.{requires_auth}
use redis_clone_js.Parser.Logs.{Command}
use redis_clone_js.Server.Session.{Env, Server, Conn, Reply, written, elsewhere, execute}
use redis_clone_js.Server.Handler.{ran, run_queue, after_run, exec, multi, say, refuse}
use redis_clone_js.Server.Step.{
  other_commands, act, own_actions, returned, queue_or_execute, handle_named, handle, handle_all,
  and_then,
}
use redis_clone_js.Server.Transactions.{
  own_names, is_own_command, IsSendable, AllSendable, queued_of,
}

abbrev pub queued_reply : Reply
queued_reply = written (encode_simple_string (text "QUEUED"))

abbrev pub ok_reply : Reply
ok_reply = written (text "+OK" ++ crlf)

-- The replies of EXEC, one behind the other.
abbrev pub joined_texts : List Text → Text
joined_texts [] = []
joined_texts (t ∷ ts) = t ++ joined_texts ts

or_false : (x y : Bool) → (x || y) ≡ false → (x ≡ false) × (y ≡ false)
or_false true y h = absurd (cc)
or_false false y h = (refl, h)

get-none : {A : Type 0} (m : Map A) (k : Text) → Map.has m k ≡ false → Map.get m k ≡ none
unfolding Map.get Map.has
get-none [] k h = refl
get-none ((j, a) ∷ m) k h = ground (arith, get-none m k)

module _ {Score : Type 0} (env : Env Score) (now : ℕ) where
  -- The guard of a connection that has logged in.
  authed_guard :
      (a upper : Bool) (authed : Bool) → authed ≡ true → (a && (not authed && upper)) ≡ false
  authed_guard true upper true h = refl
  authed_guard false upper true h = refl
  authed_guard a upper false h = absurd (cc)

  no_action :
      (upper : Text) (args : List (Option Text))
      → SetOf.has own_names upper ≡ false
      → Map.get (own_actions env now args) upper ≡ none
  unfolding own_actions SetOf.has Map.has
  no_action upper args h = get-none (own_actions env now args) upper h

  handle_named-other :
      (upper : Text) (cmd : Option Text) (args : List (Option Text)) (conn : Conn)
      (s : Server Score)
      → is_own_command upper ≡ false
      → handle_named env now upper cmd args conn s ≡ queue_or_execute env now cmd args conn s
  unfolding handle_named is_own_command
  handle_named-other upper cmd args conn s h =
      let (not_other, not_own) =
        or_false (SetOf.has other_commands upper) (SetOf.has own_names upper) h in
      ap
        (λ g.
          if g
          then (conn, s, elsewhere)
          else act env now (Map.get (own_actions env now args) upper)
              (queue_or_execute env now cmd args) conn s)
        not_other
      ∙ ap (λ o. act env now o (queue_or_execute env now cmd args) conn s)
          (no_action upper args not_own)

  handle-sendable :
      (name : Text) (args : List (Option Text)) (conn : Conn) (s : Server Score)
      → conn.authed ≡ true
      → IsSendable (some name ∷ args)
      → handle env now (some name ∷ args) conn s ≡ queue_or_execute env now (some name) args conn s
  unfolding handle
  handle-sendable name args conn s authed h =
      ap
        (λ g.
          if g
          then say env now conn s (encode_error (text "NOAUTH Authentication required."))
          else handle_named env now (to_upper name) (some name) args conn s)
        (authed_guard (requires_auth s.users) (not (text_eq (to_upper name) (text "AUTH")))
          conn.authed authed)
      ∙ handle_named-other (to_upper name) (some name) args conn s (ap is_own_command h.0 ∙ h.1)

  -- Outside a transaction the command is executed, inside it is queued.
  pub handle-alone :
      (name : Text) (args : List (Option Text)) (conn : Conn) (s : Server Score)
      → conn.authed ≡ true
      → conn.in_multi ≡ false
      → IsSendable (some name ∷ args)
      → handle env now (some name ∷ args) conn s
        ≡ returned env now conn (execute env now (some name) args conn s)
  unfolding queue_or_execute
  handle-alone name args conn s authed out h =
      handle-sendable name args conn s authed h
      ∙ ap
          (λ g.
            if g
            then say env now (record conn { queue = conn.queue ++ (some name, args) ∷ [] }) s
                (encode_simple_string (text "QUEUED"))
            else returned env now conn (execute env now (some name) args conn s))
          out

  handle-queue :
      (name : Text) (args : List (Option Text)) (conn : Conn) (s : Server Score)
      → conn.authed ≡ true
      → conn.in_multi ≡ true
      → IsSendable (some name ∷ args)
      → handle env now (some name ∷ args) conn s
        ≡ (record conn { queue = conn.queue ++ (some name, args) ∷ [] }, s, queued_reply)
  unfolding queue_or_execute
  handle-queue name args conn s authed inside h =
      handle-sendable name args conn s authed h
      ∙ ap
          (λ g.
            if g
            then say env now (record conn { queue = conn.queue ++ (some name, args) ∷ [] }) s
                (encode_simple_string (text "QUEUED"))
            else returned env now conn (execute env now (some name) args conn s))
          inside

  handle-exec :
      (conn : Conn) (s : Server Score)
      → conn.authed ≡ true
      → conn.in_multi ≡ true
      → handle env now (some (text "EXEC") ∷ []) conn s
        ≡ after_run env now conn (run_queue env now conn.db conn.queue s)
  unfolding handle handle_named own_actions exec SetOf.has Map.get text_eq to_upper
  handle-exec conn s authed inside =
      ap
        (λ g.
          if g
          then say env now conn s (encode_error (text "NOAUTH Authentication required."))
          else exec env now conn s)
        (authed_guard (requires_auth s.users) true conn.authed authed)
      ∙ ap
          (λ g.
            if g
            then after_run env now conn (run_queue env now conn.db conn.queue s)
            else refuse env now conn s (text "EXEC without MULTI"))
          inside

  handle-multi :
      (conn : Conn) (s : Server Score)
      → conn.authed ≡ true
      → conn.in_multi ≡ false
      → handle env now (some (text "MULTI") ∷ []) conn s
        ≡ (record conn { in_multi = true; queue = [] }, s, ok_reply)
  unfolding handle handle_named own_actions multi SetOf.has Map.get text_eq to_upper
  handle-multi conn s authed out =
      ap
        (λ g.
          if g
          then say env now conn s (encode_error (text "NOAUTH Authentication required."))
          else multi env now conn s)
        (authed_guard (requires_auth s.users) true conn.authed authed)
      ∙ ap
          (λ g.
            if g
            then refuse env now conn s (text "MULTI calls can not be nested")
            else say env now (record conn { in_multi = true; queue = [] }) s (text "+OK" ++ crlf))
          out

  -- Queueing the commands and EXEC, from within a transaction.
  queue_and_exec :
      (commands : List Command) (conn : Conn) (s s' : Server Score) (n : ℕ) (t : Text)
      → conn.authed ≡ true
      → conn.in_multi ≡ true
      → AllSendable commands
      → run_queue env now conn.db (conn.queue ++ map queued_of commands) s ≡ (s', ran n t)
      → handle_all env now (commands ++ (some (text "EXEC") ∷ []) ∷ []) conn s ≡ (
        record conn { in_multi = false; queue = [] },
        s',
        map (λ _. queued_reply) commands ++ written (b'*' ∷ show_ℕ n ++ (crlf ++ t)) ∷ [],
      )
  unfolding handle_all
  queue_and_exec [] conn s s' n t authed inside h e =
      ap (and_then env now (handle_all env now [])) (
        handle-exec conn s authed inside
        ∙ ap (after_run env now conn)
            (ap (λ q. run_queue env now conn.db q s) (sym (append-nil conn.queue)) ∙ e))
  queue_and_exec ([] ∷ commands) conn s s' n t authed inside h e = elim (h.0) [ ]
  queue_and_exec ((none ∷ args) ∷ commands) conn s s' n t authed inside h e = elim (h.0) [ ]
  queue_and_exec ((some name ∷ args) ∷ commands) conn s s' n t authed inside h e =
      let conn' = record conn { queue = conn.queue ++ (some name, args) ∷ [] } in
      ap (and_then env now (handle_all env now (commands ++ (some (text "EXEC") ∷ []) ∷ [])))
        (handle-queue name args conn s authed inside h.0)
      ∙ ap (λ r. (r.0, r.1, queued_reply ∷ r.2))
          (queue_and_exec commands conn' s s' n t authed inside h.1 (
            ap (λ q. run_queue env now conn.db q s)
              (append_assoc conn.queue ((some name, args) ∷ []) (map queued_of commands))
            ∙ e))

  -- The same from outside a transaction, with MULTI.
  pub multi_and_exec :
      (commands : List Command) (conn : Conn) (s s' : Server Score) (n : ℕ) (t : Text)
      → conn.authed ≡ true
      → conn.in_multi ≡ false
      → AllSendable commands
      → run_queue env now conn.db (map queued_of commands) s ≡ (s', ran n t)
      → handle_all env now
          ((some (text "MULTI") ∷ []) ∷ (commands ++ (some (text "EXEC") ∷ []) ∷ []))
          conn
          s
        ≡ (
          record conn { in_multi = false; queue = [] },
          s',
          ok_reply
              ∷ (map (λ _. queued_reply) commands ++ written (b'*' ∷ show_ℕ n ++ (crlf ++ t)) ∷ []),
        )
  unfolding handle_all
  multi_and_exec commands conn s s' n t authed out h e =
      ap (and_then env now (handle_all env now (commands ++ (some (text "EXEC") ∷ []) ∷ [])))
        (handle-multi conn s authed out)
      ∙ ap (λ r. (r.0, r.1, ok_reply ∷ r.2))
          (queue_and_exec commands (record conn { in_multi = true; queue = [] }) s s' n t authed
            refl h e)
