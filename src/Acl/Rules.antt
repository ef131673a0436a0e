-- ===== src/Acl/Rules.antt =====
-- src/server/acl.js: a user, and the loop of `setUser` over the rules.
use redis_clone_js.Prelude.{
  Bool, true, false, Option, none, some, List, [], ◌∷◌, ◌++◌, ◌==◌, if◌then◌else◌,
}
use redis_clone_js.Prelude.Text.{Text, text, text_eq, to_upper}
use redis_clone_js.SetOf

pub record User : Type 0 where
  pub name : Text
  pub active : Bool
  pub passwords : List Text
  pub nopass : Bool
  pub all_commands : Bool
  pub allowed_commands : List Text
  pub all_keys : Bool
  pub key_patterns : List Text

unfoldable pub new_user : Text → User
new_user name = record {
  name = name;
  active = false;
  passwords = [];
  nopass = false;
  all_commands = false;
  allowed_commands = [];
  all_keys = false;
  key_patterns = [];
}

-- The rules that are one word; `none` for any other text.
unfoldable pub word_rule : Text → Text → User → Option User
unfolding new_user
word_rule uname r user =
    if text_eq r (text "on")
    then some (record user { active = true })
    else if text_eq r (text "off")
    then some (record user { active = false })
    else if text_eq r (text "allcommands")
    then some (record user { all_commands = true; allowed_commands = [] })
    else if text_eq r (text "resetcommands")
    then some (record user { all_commands = false; allowed_commands = [] })
    else if text_eq r (text "allkeys")
    then some (record user { all_keys = true; key_patterns = [] })
    else if text_eq r (text "resetkeys")
    then some (record user { all_keys = false; key_patterns = [] })
    else if text_eq r (text "resetpass")
    then some (record user { passwords = []; nopass = false })
    else if text_eq r (text "nopass")
    then some (record user { nopass = true; passwords = [] })
    else if text_eq r (text "reset")
    then some (new_user uname)
    else none

-- The rules that begin with a sign; any other text is ignored.
unfoldable pub sign_rule : (Text → Text) → Text → User → User
sign_rule hash [] user = user
sign_rule hash (sign ∷ []) user = user
sign_rule hash (sign ∷ c ∷ rest) user =
    if sign == b'>'
    then record user { nopass = false; passwords = SetOf.add user.passwords (hash (c ∷ rest)) }
    else if sign == b'~'
    then record user { all_keys = false; key_patterns = user.key_patterns ++ (c ∷ rest) ∷ [] }
    else if sign == b'+'
    then record user {
      all_commands = false;
      allowed_commands = SetOf.add user.allowed_commands (to_upper (c ∷ rest));
    }
    else if sign == b'-'
    then record user {
      all_commands = false;
      allowed_commands = SetOf.delete user.allowed_commands (to_upper (c ∷ rest));
    }
    else user

unfoldable pub apply_rule : (Text → Text) → Text → Text → User → User
unfolding word_rule sign_rule
apply_rule hash uname r user = elim (word_rule uname r user) [
  | Option.some user' ↦ user'
  | Option.none ↦ sign_rule hash r user
]

unfoldable pub apply_rules : (Text → Text) → Text → List Text → User → User
unfolding apply_rule
apply_rules hash uname [] user = user
apply_rules hash uname (r ∷ rules) user =
    apply_rules hash uname rules (apply_rule hash uname r user)
