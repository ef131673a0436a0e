-- ===== src/Acl/Passwords.antt =====
-- A user with a password: ACL SETUSER and then AUTH.
use redis_clone_js.Prelude.{ℕ, ◌≡◌, refl, true, none, some, [], ◌∷◌, arith, if◌then◌else◌}
use redis_clone_js.Prelude.Text.{Text, text, text_eq}
use redis_clone_js.Map
use redis_clone_js.Map.{Map}
use redis_clone_js.Map.Laws.{get-set_self}
use redis_clone_js.SetOf
use redis_clone_js.Acl.Rules.{User, new_user, word_rule, sign_rule, apply_rule, apply_rules}
use redis_clone_js.Acl.{granted, invalid_password, authenticate, check_password, set_user}

-- A user who is on and has one password.
abbrev pub one_password : Text → Text → User
one_password name hashed = record (new_user name) { active = true; passwords = hashed ∷ [] }

rules-one_password :
    (hash : Text → Text) (name : Text) (c : ℕ) (password : Text)
    → apply_rules hash name (text "on" ∷ (b'>' ∷ c ∷ password) ∷ []) (new_user name)
      ≡ one_password name (hash (c ∷ password))
unfolding apply_rules apply_rule word_rule sign_rule new_user SetOf.add SetOf.has text_eq
rules-one_password hash name c password = refl

-- After SETUSER of a new name with the rules `on` and a password, AUTH by that name is granted to
-- the passwords with the hash of that one, and refused to all others.
pub authenticate-set_user :
    (hash : Text → Text) (users : Map User) (d : ℕ) (name : Text) (c : ℕ) (password tried : Text)
    → Map.get users (d ∷ name) ≡ none
    → authenticate hash
        (set_user hash users (d ∷ name) (text "on" ∷ (b'>' ∷ c ∷ password) ∷ []))
        (d ∷ name)
        (some tried)
      ≡ (if text_eq (hash (c ∷ password)) (hash tried)
          then granted (one_password (d ∷ name) (hash (c ∷ password)))
          else invalid_password)
unfolding set_user authenticate check_password SetOf.has new_user
authenticate-set_user hash users d name c password tried absent = rw absent (
    rw (rules-one_password hash (d ∷ name) c password) (
      rw
        (
          get-set_self users (d ∷ name) (one_password (d ∷ name) (hash (c ∷ password))),
          authenticate,
        )
        (ground arith)))
