-- ===== src/Tests/Acl.antt =====
-- Users and passwords.
use redis_clone_js.Prelude.{◌≡◌, refl, some, [], ◌∷◌, ◌++◌}
use redis_clone_js.Prelude.Text.{Text, text, text_eq}
use redis_clone_js.Map
use redis_clone_js.Acl.Rules.{User}
use redis_clone_js.Acl.{authenticate, invalid_password, init_users, set_user, default_name}
use redis_clone_js.Acl.Invariant.{IsGuarded, init_users-IsGuarded, set_user-IsGuarded}
use redis_clone_js.Acl.Passwords.{authenticate-set_user}

-- A hash that keeps passwords apart.
abbrev hash : Text → Text
hash password = text "sha256:" ++ password

abbrev users : Map.Map User
users = init_users hash (some (text "secret"))

set_user-IsGuarded_example :
    IsGuarded
      (set_user hash users default_name (text "reset" ∷ text "+get" ∷ text "~*" ∷ text ">p" ∷ []))
set_user-IsGuarded_example =
    set_user-IsGuarded hash users default_name
      (text "reset" ∷ text "+get" ∷ text "~*" ∷ text ">p" ∷ [])
      (init_users-IsGuarded hash (some (text "secret")))

authenticate-set_user_example :
    authenticate hash
      (set_user hash users (text "ann") (text "on" ∷ text ">pw" ∷ []))
      (text "ann")
      (some (text "no"))
    ≡ invalid_password
unfolding text_eq
authenticate-set_user_example =
    authenticate-set_user hash users b'a' (text "nn") b'p' (text "w") (text "no")
      (unfold init_users Map.set Map.get text_eq in refl)
