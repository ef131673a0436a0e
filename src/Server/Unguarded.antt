-- ===== src/Server/Unguarded.antt =====
-- src/server/Server.js: what the queue of EXEC neither reads nor changes.
use redis_clone_js.Prelude.{
  ℕ, ◌≡◌, refl, ap, sym, ◌∙◌, Bool, true, false, some, List, [], ◌∷◌, ◌++◌, map,
}
use redis_clone_js.Prelude.Text.{Text, text}
use redis_clone_js.Map.{Map}
use redis_clone_js.Protocol.{crlf}
use redis_clone_js.Number.{show_ℕ}
use redis_clone_js.Acl.Rules.{User}
use redis_clone_js.Parser.Logs.{Command}
use redis_clone_js.Server.Backlog.{Backlog}
use redis_clone_js.Server.Session.{Env, Server, Conn, Queued, Reply, written, threw, elsewhere}
use redis_clone_js.Server.Handler.{
  Ran, ran, stopped, run_queued, run_queue, cons_reply, after_queued,
}
use redis_clone_js.Server.Step.{handle_all}
use redis_clone_js.Server.Transactions.{
  AllSendable, queued_of, with_outside, with_backlog, run_queued-with_outside,
}
use redis_clone_js.Server.Exec.{queued_reply, ok_reply, multi_and_exec}

module _ {Score : Type 0} (env : Env Score) (now : ℕ) where
  after_queued-with_outside :
      (rest : Server Score → Server Score × Ran) (users : Map User) (replica : Bool) (b : Backlog)
      (s : Server Score) (r : Reply)
      → ((s : Server Score)
          → rest (with_outside users replica b s)
            ≡ (with_outside users replica b (rest s).0, (rest s).1))
      → after_queued env now rest (with_outside users replica b s, r) ≡ (
        with_outside users replica b (after_queued env now rest (s, r)).0,
        (after_queued env now rest (s, r)).1,
      )
  after_queued-with_outside rest users replica b s (written t) h =
      ap (cons_reply env now t) (h s) ∙ cons_both t (rest s)
    where
      cons_both :
          (t : Text) (r : Server Score × Ran)
          → cons_reply env now t (with_outside users replica b r.0, r.1)
            ≡ (with_outside users replica b (cons_reply env now t r).0, (cons_reply env now t r).1)
      cons_both t (s, ran n replies) = refl
      cons_both t (s, stopped r) = refl
  after_queued-with_outside rest users replica b s threw h = refl
  after_queued-with_outside rest users replica b s elsewhere h = refl

  run_queue-with_outside :
      (db : ℕ) (queue : List Queued) (users : Map User) (replica : Bool) (b : Backlog)
      (s : Server Score)
      → run_queue env now db queue (with_outside users replica b s) ≡ (
        with_outside users replica b (run_queue env now db queue s).0,
        (run_queue env now db queue s).1,
      )
  unfolding run_queue
  run_queue-with_outside db [] users replica b s = refl
  run_queue-with_outside db (q ∷ queue) users replica b s =
      ap (after_queued env now (run_queue env now db queue))
        (run_queued-with_outside env now db q users replica b s)
      ∙ after_queued-with_outside (run_queue env now db queue) users replica b
          (run_queued env now db q s).0 (run_queued env now db q s).1
          (run_queue-with_outside db queue users replica b)

  -- What the queue leaves as it is.
  pub run_queued-users :
      (db : ℕ) (q : Queued) (s : Server Score)
      → ((run_queued env now db q s).0.users ≡ s.users)
        × ((run_queued env now db q s).0.replica ≡ s.replica)
  run_queued-users db q s =
      let same = run_queued-with_outside env now db q s.users s.replica s.backlog s in
      (ap (λ x. x.0.users) same, ap (λ x. x.0.replica) same)

  pub run_queue-with_backlog :
      (db : ℕ) (queue : List Queued) (b : Backlog) (s : Server Score)
      → run_queue env now db queue (with_backlog b s)
        ≡ (with_backlog b (run_queue env now db queue s).0, (run_queue env now db queue s).1)
  run_queue-with_backlog db queue b s =
      let r = run_queue env now db queue s in
      let same = run_queue-with_outside db queue s.users s.replica s.backlog s in
      run_queue-with_outside db queue s.users s.replica b s
      ∙ ap (λ x. (with_outside x.0.users x.0.replica b r.0, r.1)) (sym same)

  pub run_queue-backlog :
      (db : ℕ) (queue : List Queued) (s : Server Score)
      → (run_queue env now db queue s).0.backlog ≡ s.backlog
  run_queue-backlog db queue s =
      ap (λ x. x.0.backlog) (run_queue-with_outside db queue s.users s.replica s.backlog s)

  -- EXEC asks neither the access control list nor the role of the server: with any users, any role
  -- and any backlog instead of its own, the server gives the same replies to MULTI, the commands and
  -- EXEC, and its data and its log end the same. The connection has logged in, the commands go to
  -- the data store, are in upper case and write no JSON, and none of them throws.
  pub exec-ignores_access :
      (commands : List Command) (conn : Conn) (users : Map User) (replica : Bool) (b : Backlog)
      (s s' : Server Score) (n : ℕ) (t : Text)
      → conn.authed ≡ true
      → conn.in_multi ≡ false
      → AllSendable commands
      → run_queue env now conn.db (map queued_of commands) s ≡ (s', ran n t)
      → handle_all env now
          ((some (text "MULTI") ∷ []) ∷ (commands ++ (some (text "EXEC") ∷ []) ∷ []))
          conn
          (with_outside users replica b s)
        ≡ (
          record conn { in_multi = false; queue = [] },
          with_outside users replica b s',
          ok_reply
              ∷ (map (λ _. queued_reply) commands ++ written (b'*' ∷ show_ℕ n ++ (crlf ++ t)) ∷ []),
        )
  exec-ignores_access commands conn users replica b s s' n t authed out h e =
      multi_and_exec env now commands conn (with_outside users replica b s)
        (with_outside users replica b s') n t authed out h
        (run_queue-with_outside conn.db (map queued_of commands) users replica b s
          ∙ ap (λ x. (with_outside users replica b x.0, x.1)) e)
