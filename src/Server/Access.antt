-- ===== src/Server/Access.antt =====
-- src/server/Server.js: connections before and at their login.
use redis_clone_js.Prelude.{
  ℕ, suc, ◌≡◌, refl, ap, sym, ◌∙◌, Bool, true, false, not, ◌&&◌, ◌||◌, Option, none, some, List, [],
  ◌∷◌, ◌++◌, map, length, arith, if◌then◌else◌, inl, inr, Bool-cases,
}
use redis_clone_js.Prelude.Text.{Text, text, text_eq, to_upper, eq_of_text_eq}
use redis_clone_js.Map
use redis_clone_js.Map.{Map}
use redis_clone_js.SetOf
use redis_clone_js.Protocol.{crlf, encode_error}
use redis_clone_js.Acl.Rules.{User}
use redis_clone_js.Acl.{
  granted, invalid_user, invalid_password, requires_auth, authenticate, check_password, or_default,
}
use redis_clone_js.Parser.Logs.{Command}
use redis_clone_js.Server.Keys.{or_null}
use redis_clone_js.Server.Session.{Env, Server, Conn, Reply, written}
use redis_clone_js.Server.Handler.{auth, auth_result, refuse}
use redis_clone_js.Server.Step.{own_actions, handle_named, handle, handle_all, and_then}

abbrev pub read_only : Text
read_only = text "READONLY You can't write against a read only replica"

-- The password of a user, or any for a user without one.
abbrev pub opens : (Text → Text) → Option Text → User → Bool
opens hash none user = user.active && (user.nopass || false)
opens hash (some password) user =
    user.active && (user.nopass || SetOf.has user.passwords (hash password))

abbrev pub user_opens : (Text → Text) → Option Text → Option User → Bool
user_opens hash password none = false
user_opens hash password (some user) = opens hash password user

-- The name and the password that AUTH gives.
abbrev pub credentials : List (Option Text) → Option (Text × Option Text)
credentials [] = none
credentials (password ∷ []) = some (text "default", password)
credentials (name ∷ password ∷ []) = some (or_null name, password)
credentials (name ∷ password ∷ other ∷ args) = none

abbrev pub right_credentials : (Text → Text) → Map User → Option (Text × Option Text) → Bool
right_credentials hash users none = false
right_credentials hash users (some (name, password)) =
    user_opens hash password (Map.get users (or_default name))

-- AUTH with the password of a user who is on.
abbrev pub logs_in : (Text → Text) → Map User → Command → Bool
logs_in hash users [] = false
logs_in hash users (cmd ∷ args) =
    text_eq (to_upper (or_null cmd)) (text "AUTH")
    && right_credentials hash users (credentials args)

abbrev pub NoneLogsIn : (Text → Text) → Map User → List Command → Type 0
NoneLogsIn hash users [] = Unit
NoneLogsIn hash users (c ∷ commands) =
    (logs_in hash users c ≡ false) × NoneLogsIn hash users commands

abbrev login_name : Option (Text × Option Text) → Text
login_name none = text "default"
login_name (some (name, password)) = name

abbrev pub name_of : Command → Text
name_of [] = text "default"
name_of (cmd ∷ args) = login_name (credentials args)

abbrev pub login_reply : Bool → Text → Reply
login_reply true message = written (text "+OK" ++ crlf)
login_reply false message = written (encode_error message)

abbrev pub login_conn : Bool → Text → Conn → Conn
login_conn true name conn = record conn { authed = true; user = name }
login_conn false name conn = conn

lets_auth :
    (asks authed : Bool) {is_auth : Bool}
    → is_auth ≡ true
    → (asks && (not authed && not is_auth)) ≡ false
lets_auth asks authed is_auth = ground arith

module _ {Score : Type 0} (env : Env Score) (now : ℕ) where
  -- The user of the connection.
  abbrev pub user_of : Conn → Text
  user_of conn = if text_eq conn.user [] then text "default" else conn.user

  -- What a login that may fail gives.
  abbrev Answered : Bool → Text → Conn → Server Score → Conn × Server Score × Reply → Type 0
  Answered right name conn s r =
      (message : Text) × (r ≡ (login_conn right name conn, s, login_reply right message))

  auth_result-Answered :
      (user : User) (name : Text) (conn : Conn) (s : Server Score) (active nopass known : Bool)
      → Answered (active && (nopass || known)) name conn s (
          auth_result env now name conn s (
            if active
            then if nopass then granted user else if known then granted user else invalid_password
            else invalid_user))
  auth_result-Answered user name conn s false nopass known = (_, refl)
  auth_result-Answered user name conn s true true known = (text "", refl)
  auth_result-Answered user name conn s true false true = (text "", refl)
  auth_result-Answered user name conn s true false false = (_, refl)

  checked-Answered :
      (password : Option Text) (name : Text) (conn : Conn) (s : Server Score) (o : Option User)
      → Answered (user_opens env.hash password o) name conn s (
          auth_result env now name conn s (elim o [
            | Option.none ↦ invalid_user
            | Option.some user ↦
                if user.active then check_password env.hash password user else invalid_user
          ]))
  unfolding check_password
  checked-Answered password name conn s none = (_, refl)
  checked-Answered none name conn s (some user) =
      auth_result-Answered user name conn s user.active user.nopass false
  checked-Answered (some password) name conn s (some user) =
      auth_result-Answered user name conn s user.active user.nopass
        (SetOf.has user.passwords (env.hash password))

  auth-Answered :
      (args : List (Option Text)) (conn : Conn) (s : Server Score)
      → Answered
          (right_credentials env.hash s.users (credentials args))
          (login_name (credentials args))
          conn
          s
          (auth env now args conn s)
  unfolding auth authenticate
  auth-Answered [] conn s = (_, refl)
  auth-Answered (password ∷ []) conn s =
      checked-Answered password (text "default") conn s (Map.get s.users (text "default"))
  auth-Answered (name ∷ password ∷ []) conn s =
      checked-Answered password (or_null name) conn s (Map.get s.users (or_default (or_null name)))
  auth-Answered (name ∷ password ∷ other ∷ args) conn s = (_, refl)

  handle_named-auth :
      (cmd : Option Text) (args : List (Option Text)) (conn : Conn) (s : Server Score)
      → handle_named env now (text "AUTH") cmd args conn s ≡ auth env now args conn s
  unfolding handle_named own_actions SetOf.has Map.get text_eq
  handle_named-auth cmd args conn s = refl

  handle-auth :
      (cmd : Option Text) (args : List (Option Text)) (conn : Conn) (s : Server Score)
      → text_eq (to_upper (or_null cmd)) (text "AUTH") ≡ true
      → handle env now (cmd ∷ args) conn s ≡ auth env now args conn s
  unfolding handle
  handle-auth cmd args conn s is_auth =
      ap
        (λ g.
          if g
          then refuse env now conn s (text "NOAUTH Authentication required.")
          else handle_named env now (to_upper (or_null cmd)) cmd args conn s)
        (lets_auth (requires_auth s.users) conn.authed is_auth)
      ∙ ap (λ upper. handle_named env now upper cmd args conn s)
          (eq_of_text_eq (to_upper (or_null cmd)) (text "AUTH") is_auth)
      ∙ handle_named-auth cmd args conn s

  -- The guard of the connection, and AUTH behind it.
  handle-Answered :
      (c : Command) (conn : Conn) (s : Server Score)
      → requires_auth s.users ≡ true
      → conn.authed ≡ false
      → Answered (logs_in env.hash s.users c) (name_of c) conn s (handle env now c conn s)
  unfolding handle
  handle-Answered [] conn s asks out =
      (text "NOAUTH Authentication required.", rw asks (rw out refl))
  handle-Answered (cmd ∷ args) conn s asks out =
      elim (Bool-cases (text_eq (to_upper (or_null cmd)) (text "AUTH"))) [
        | inl is_auth ↦
            let (message, e) = auth-Answered args conn s in
            let right = right_credentials env.hash s.users (credentials args) in
            (
              message,
              handle-auth cmd args conn s is_auth
                  ∙ e
                  ∙ ap
                      (λ x. (
                        login_conn (x && right) (name_of (cmd ∷ args)) conn,
                        s,
                        login_reply (x && right) message,
                      ))
                      (sym is_auth),
            )
        | inr no_auth ↦ rw no_auth (rw asks (rw out (text "NOAUTH Authentication required.", refl)))
      ]

  and_then-Answered :
      (rest : Conn → Server Score → Conn × Server Score × List Reply) (right : Bool) (name : Text)
      (conn : Conn) (s : Server Score) (message : Text)
      → and_then env now rest (login_conn right name conn, s, login_reply right message) ≡ (
        (rest (login_conn right name conn) s).0,
        (rest (login_conn right name conn) s).1,
        login_reply right message ∷ (rest (login_conn right name conn) s).2,
      )
  and_then-Answered rest true name conn s message = refl
  and_then-Answered rest false name conn s message = refl

  -- On a server that asks for a password, a connection that has not logged in gets an error for each
  -- message that does not log in, and neither the server nor the connection changes by it. The next
  -- message logs the connection in, as the user that it names, just when it is an AUTH as a user who
  -- is on, with a password of that user, or with any if the user needs none.
  pub handle_all-login :
      (before : List Command) (c : Command) (conn : Conn) (s : Server Score)
      → requires_auth s.users ≡ true
      → conn.authed ≡ false
      → NoneLogsIn env.hash s.users before
      → (messages : List Text) × (last : Text) × (length messages ≡ length before)
        × (handle_all env now (before ++ c ∷ []) conn s ≡ (
          login_conn (logs_in env.hash s.users c) (name_of c) conn,
          s,
          map (login_reply false) messages ++ login_reply (logs_in env.hash s.users c) last ∷ [],
        ))
  unfolding handle_all
  handle_all-login [] c conn s asks out h =
      let (message, e) = handle-Answered c conn s asks out in
      (
        [],
        message,
        refl,
        ap (and_then env now (handle_all env now [])) e
            ∙ and_then-Answered (handle_all env now []) _ _ conn s message,
      )
  handle_all-login (b ∷ before) c conn s asks out h =
      let (message, e) = handle-Answered b conn s asks out in
      let (messages, last, same, later) = handle_all-login before c conn s asks out h.1 in
      (
        message ∷ messages,
        last,
        ap suc same,
        ap (and_then env now (handle_all env now (before ++ c ∷ []))) (
              e
              ∙ ap (λ right. (login_conn right (name_of b) conn, s, login_reply right message)) h.0)
            ∙ ap (λ r. (r.0, r.1, login_reply false message ∷ r.2)) later,
      )
