-- ===== src/Server/Atomic.antt =====
-- src/server/Server.js: a transaction against the same commands sent one by one.
use redis_clone_js.Prelude.{
  ℕ, suc, ◌≡◌, refl, ap, sym, ◌∙◌, true, false, none, some, List, [], ◌∷◌, ◌++◌, map, length,
}
use redis_clone_js.Prelude.Text.{Text, text}
use redis_clone_js.Protocol.{crlf}
use redis_clone_js.Number.{show_ℕ}
use redis_clone_js.Acl.Check.{permitted, check}
use redis_clone_js.Parser.Logs.{Command}
use redis_clone_js.Server.Backlog.{Backlog}
use redis_clone_js.Server.Session.{Env, Server, Conn, Reply, written, threw, elsewhere}
use redis_clone_js.Server.Handler.{
  Ran, ran, stopped, run_queued, run_queue, cons_reply, after_queued,
}
use redis_clone_js.Server.Step.{returned, handle_all, and_then}
use redis_clone_js.Server.Access.{user_of}
use redis_clone_js.Server.Transactions.{AllSendable, queued_of, with_backlog, execute-run_queued}
use redis_clone_js.Server.Unguarded.{run_queued-users, run_queue-with_backlog, run_queue-backlog}
use redis_clone_js.Server.Exec.{queued_reply, ok_reply, joined_texts, handle-alone, multi_and_exec}

module _ {Score : Type 0} (env : Env Score) (now : ℕ) where
  -- A queue that ran to its end, by its first command.
  record FirstQueued (rest : Server Score → Server Score × Ran) (s : Server Score) (r : Reply)
      (s' : Server Score) (n : ℕ) (t : Text) : Type 0 where
    first : Text
    others : ℕ
    others_text : Text
    replied : r ≡ written first
    further : rest s ≡ (s', ran others others_text)
    count : n ≡ suc others
    whole : t ≡ first ++ others_text

  first_queued :
      (rest : Server Score → Server Score × Ran) (s : Server Score) (r : Reply) (s' : Server Score)
      (n : ℕ) (t : Text)
      → after_queued env now rest (s, r) ≡ (s', ran n t)
      → FirstQueued rest s r s' n t
  first_queued rest s (written first) s' n t e = inner (rest s) refl e
    where
      inner :
          (x : Server Score × Ran)
          → rest s ≡ x
          → cons_reply env now first x ≡ (s', ran n t)
          → FirstQueued rest s (written first) s' n t
      inner (s2, ran m replies) found e = record {
        first = first;
        others = m;
        others_text = replies;
        replied = refl;
        further = found ∙ cc;
        count = cc;
        whole = cc;
      }
      inner (s2, stopped r) found e = absurd (cc)
  first_queued rest s threw s' n t e = absurd (cc)
  first_queued rest s elsewhere s' n t e = absurd (cc)

  -- The commands one by one.
  pub record SentAlone (commands : List Command) (conn : Conn) (s s' : Server Score) (n : ℕ)
      (t : Text) : Type 0 where
    pub backlog : Backlog
    pub texts : List Text
    pub sent :
        handle_all env now commands conn s ≡ (conn, with_backlog backlog s', map written texts)
    pub joined : t ≡ joined_texts texts
    pub number : n ≡ length texts

  sent_alone :
      (commands : List Command) (conn : Conn) (s s' : Server Score) (n : ℕ) (t : Text)
      → conn.authed ≡ true
      → conn.in_multi ≡ false
      → s.replica ≡ false
      → ((upper : Text) (keys : List Text)
          → check s.users (user_of env now conn) upper keys ≡ permitted)
      → AllSendable commands
      → run_queue env now conn.db (map queued_of commands) s ≡ (s', ran n t)
      → SentAlone commands conn s s' n t
  unfolding handle_all run_queue
  sent_alone [] conn s s' n t authed out master allowed h e = record {
    backlog = s'.backlog;
    texts = [];
    sent = cc;
    joined = cc;
    number = cc;
  }
  sent_alone ([] ∷ commands) conn s s' n t authed out master allowed h e = elim (h.0) [ ]
  sent_alone ((none ∷ args) ∷ commands) conn s s' n t authed out master allowed h e = elim (h.0) [ ]
  sent_alone ((some name ∷ args) ∷ commands) conn s s' n t authed out master allowed h e =
      let q = run_queued env now conn.db (some name, args) s in
      let rest = run_queue env now conn.db (map queued_of commands) in
      let i = first_queued rest q.0 q.1 s' n t e in
      let (b, alone) = execute-run_queued env now name args conn s master allowed h.0 in
      let (users, replica) = run_queued-users env now conn.db (some name, args) s in
      let later =
        sent_alone commands conn (with_backlog b q.0) (with_backlog b s') i.others i.others_text
          authed out (replica ∙ master)
          (λ upper keys.
            ap (λ u. check u (user_of env now conn) upper keys) users ∙ allowed upper keys)
          h.1
          (run_queue-with_backlog env now conn.db (map queued_of commands) b q.0
            ∙ ap (λ x. (with_backlog b x.0, x.1)) i.further) in
      record {
        backlog = later.backlog;
        texts = i.first ∷ later.texts;
        sent =
            ap (and_then env now (handle_all env now commands)) (
              handle-alone env now name args conn s authed out h.0
              ∙ ap (returned env now conn) alone
              ∙ ap (λ r. (conn, with_backlog b q.0, r)) i.replied)
            ∙ ap (λ x. (x.0, x.1, written i.first ∷ x.2)) later.sent;
        joined = i.whole ∙ ap (i.first ++◌) later.joined;
        number = i.count ∙ ap suc later.number;
      }

  -- For a user who may run everything, logged in on a master and outside a transaction, the commands
  -- sent between MULTI and EXEC leave the data, the users and the log of the server as the same
  -- commands sent one by one do, and EXEC answers with an array of the same replies in their order;
  -- only the backlog for the replicas differs: EXEC leaves it as it was. The commands are in upper
  -- case, go to the data store, write no JSON, and none of them throws.
  pub exec-sends_alone :
      (commands : List Command) (conn : Conn) (s s' : Server Score) (n : ℕ) (t : Text)
      → conn.authed ≡ true
      → conn.in_multi ≡ false
      → s.replica ≡ false
      → ((upper : Text) (keys : List Text)
          → check s.users (user_of env now conn) upper keys ≡ permitted)
      → AllSendable commands
      → run_queue env now conn.db (map queued_of commands) s ≡ (s', ran n t)
      → SentAlone commands conn s s' n t
        × (handle_all env now
              ((some (text "MULTI") ∷ []) ∷ (commands ++ (some (text "EXEC") ∷ []) ∷ []))
              conn
              s
            ≡ (
              record conn { in_multi = false; queue = [] },
              s',
              ok_reply
                  ∷ (map (λ _. queued_reply) commands
                      ++ written (b'*' ∷ show_ℕ n ++ (crlf ++ t)) ∷ []),
            ))
        × (s'.backlog ≡ s.backlog)
  unfolding handle_all
  exec-sends_alone commands conn s s' n t authed out master allowed h e = (
    sent_alone commands conn s s' n t authed out master allowed h e,
    multi_and_exec env now commands conn s s' n t authed out h e,
    ap (λ x. x.0.backlog) (sym e) ∙ run_queue-backlog env now conn.db (map queued_of commands) s,
  )
