-- ===== src/Acl.antt =====
-- src/server/acl.js: the users of AclManager, their rules and the check of a password. `hash` is the
-- SHA-256 of node:crypto.
pub mod Rules
pub mod Invariant
pub mod Passwords
pub mod Check
use redis_clone_js.Prelude.{
  ℕ, Bool, true, false, not, Option, none, some, List, [], ◌∷◌, length, ltb, if◌then◌else◌,
}
use redis_clone_js.Prelude.Text.{Text, text, text_eq}
use redis_clone_js.Prelude.Int.{ℤ, pos}
use redis_clone_js.Map
use redis_clone_js.Map.{Map}
use redis_clone_js.SetOf
use redis_clone_js.Acl.Rules.{User, new_user, apply_rules}

abbrev pub default_name : Text
default_name = text "default"

-- `none` for no password in the options. An empty one counts as none.
unfoldable pub default_user : (Text → Text) → Option Text → User
default_user hash none = record (new_user default_name) {
  active = true;
  all_commands = true;
  all_keys = true;
  nopass = true;
}
default_user hash (some []) = record (new_user default_name) {
  active = true;
  all_commands = true;
  all_keys = true;
  nopass = true;
}
default_user hash (some (c ∷ password)) = record (new_user default_name) {
  active = true;
  all_commands = true;
  all_keys = true;
  passwords = SetOf.add [] (hash (c ∷ password));
}

unfoldable pub init_users : (Text → Text) → Option Text → Map User
unfolding default_user
init_users hash password = Map.set [] default_name (default_user hash password)

unfoldable pub requires_auth : Map User → Bool
requires_auth users = elim (Map.get users default_name) [
  | Option.none ↦ true
  | Option.some u ↦
      if not u.active then true else if u.nopass then false else ltb 0 (length u.passwords)
]

pub data AuthResult : Type 0 where
  granted : User → AuthResult
  invalid_user invalid_password : AuthResult

unfoldable pub check_password : (Text → Text) → Option Text → User → AuthResult
check_password hash none user = if user.nopass then granted user else invalid_password
check_password hash (some password) user =
    if user.nopass
    then granted user
    else if SetOf.has user.passwords (hash password)
    then granted user
    else invalid_password

-- String(username || "default")
abbrev pub or_default : Text → Text
or_default [] = default_name
or_default (c ∷ name) = c ∷ name

unfoldable pub authenticate : (Text → Text) → Map User → Text → Option Text → AuthResult
unfolding check_password
authenticate hash users username password = elim (Map.get users (or_default username)) [
  | Option.none ↦ invalid_user
  | Option.some user ↦ if user.active then check_password hash password user else invalid_user
]

unfoldable pub del_user : Map User → Text → Map User × ℤ
del_user users name =
    if text_eq name default_name
    then (users, pos 0)
    else if Map.has users name
    then (Map.delete users name, pos 1)
    else (users, pos 0)

abbrev or_new : Text → Option User → User
or_new name none = new_user name
or_new name (some user) = user

unfoldable pub set_user : (Text → Text) → Map User → Text → List Text → Map User
unfolding apply_rules
set_user hash users name rules =
    Map.set users name (apply_rules hash name rules (or_new name (Map.get users name)))

-- The user of a connection, or the default user if it is gone.
unfoldable pub effective_user : Map User → Text → Option User
effective_user users name = elim (Map.get users name) [
  | Option.none ↦ Map.get users default_name
  | Option.some user ↦ some user
]
