-- ===== src/Acl/Invariant.antt =====
-- What holds of every user, and of the map of users.
use redis_clone_js.Prelude.{
  ◌≡◌, refl, sym, subst, true, false, Option, none, some, List, [], ◌∷◌, arith, Bool-cases,
  Option-cases, inl, inr, ◌∙◌,
}
use redis_clone_js.Prelude.Text.{Text, text_eq}
use redis_clone_js.Map
use redis_clone_js.Map.{Map}
use redis_clone_js.Map.Laws.{get-set, get-delete, has-set, has-delete}
use redis_clone_js.Acl.Rules.{User, new_user, word_rule, sign_rule, apply_rule, apply_rules}
use redis_clone_js.Acl.{default_name, default_user, init_users, del_user, set_user, or_new}

-- A user who may run every command, use every key or come in without a password has no list of
-- commands, keys or passwords.
pub record IsPlain (u : User) : Type 0 where
  pub no_commands : u.all_commands ≡ true → u.allowed_commands ≡ []
  pub no_patterns : u.all_keys ≡ true → u.key_patterns ≡ []
  pub no_passwords : u.nopass ≡ true → u.passwords ≡ []

new_user-IsPlain : (name : Text) → IsPlain (new_user name)
unfolding new_user
new_user-IsPlain name = record {
  no_commands = λ h. refl;
  no_patterns = λ h. refl;
  no_passwords = λ h. refl;
}

sign_rule-IsPlain :
    (hash : Text → Text) (r : Text) (u : User) → IsPlain u → IsPlain (sign_rule hash r u)
unfolding sign_rule
sign_rule-IsPlain hash [] u p = p
sign_rule-IsPlain hash (s ∷ []) u p = p
sign_rule-IsPlain hash (s ∷ c ∷ r) u p = record {
  no_commands = ground (arith, p.no_commands);
  no_patterns = ground (arith, p.no_patterns);
  no_passwords = ground (arith, p.no_passwords);
}

word_rule-IsPlain :
    (uname r : Text) (u u' : User) → IsPlain u → word_rule uname r u ≡ some u' → IsPlain u'
unfolding word_rule
word_rule-IsPlain uname r u u' p e = record {
  no_commands = ground (arith, p.no_commands, (new_user-IsPlain uname).no_commands);
  no_patterns = ground (arith, p.no_patterns, (new_user-IsPlain uname).no_patterns);
  no_passwords = ground (arith, p.no_passwords, (new_user-IsPlain uname).no_passwords);
}

apply_rules-IsPlain :
    (hash : Text → Text) (uname : Text) (rules : List Text) (u : User)
    → IsPlain u
    → IsPlain (apply_rules hash uname rules u)
unfolding apply_rules
apply_rules-IsPlain hash uname [] u p = p
apply_rules-IsPlain hash uname (r ∷ rules) u p =
    apply_rules-IsPlain hash uname rules (apply_rule hash uname r u)
      (elim (Option-cases (word_rule uname r u)) [
        | inl other ↦ rw (other, apply_rule) (sign_rule-IsPlain hash r u p)
        | inr (u', word) ↦ rw (word, apply_rule) (word_rule-IsPlain uname r u u' p word)
      ])

-- The default user is there, and every user is plain.
pub record IsGuarded (users : Map User) : Type 0 where
  pub default_stays : Map.has users default_name ≡ true
  pub all_plain : (name : Text) (u : User) → Map.get users name ≡ some u → IsPlain u

or_new-IsPlain :
    (name : Text) (users : Map User) → IsGuarded users → IsPlain (or_new name (Map.get users name))
or_new-IsPlain name users g = elim (Option-cases (Map.get users name)) [
  | inl absent ↦ rw absent (new_user-IsPlain name)
  | inr (u, there) ↦ rw there (g.all_plain name u there)
]

IsPlain-of_some : (u v : User) → IsPlain u → some u ≡ some v → IsPlain v
IsPlain-of_some u v p e = let same : u ≡ v = cc in subst IsPlain same p

set-IsGuarded :
    (users : Map User) (name : Text) (u : User)
    → IsPlain u
    → IsGuarded users
    → IsGuarded (Map.set users name u)
set-IsGuarded users name u p g = record {
  default_stays = ground (arith, has-set users name default_name u, g.default_stays);
  all_plain = λ k v e. elim (Bool-cases (text_eq name k)) [
    | inl same ↦ IsPlain-of_some u v p (sym (get-set users name k u ∙ rw same refl) ∙ e)
    | inr other ↦ g.all_plain k v (sym (get-set users name k u ∙ rw other refl) ∙ e)
  ];
}

-- ACL SETUSER, with any rules, keeps the default user and keeps every user plain.
pub set_user-IsGuarded :
    (hash : Text → Text) (users : Map User) (name : Text) (rules : List Text)
    → IsGuarded users
    → IsGuarded (set_user hash users name rules)
unfolding set_user
set_user-IsGuarded hash users name rules g =
    set-IsGuarded users name (apply_rules hash name rules (or_new name (Map.get users name)))
      (apply_rules-IsPlain hash name rules (or_new name (Map.get users name))
        (or_new-IsPlain name users g))
      g

delete-IsGuarded :
    (users : Map User) (name : Text)
    → text_eq name default_name ≡ false
    → IsGuarded users
    → IsGuarded (Map.delete users name)
delete-IsGuarded users name h g = record {
  default_stays = ground (arith, has-delete users name default_name, g.default_stays);
  all_plain = λ k v e. elim (Bool-cases (text_eq name k)) [
    | inl same ↦ absurd (ground (arith, get-delete users name k))
    | inr other ↦ g.all_plain k v (sym (get-delete users name k ∙ rw other refl) ∙ e)
  ];
}

-- ACL DELUSER, of any name, keeps the default user and keeps every user plain.
pub del_user-IsGuarded :
    (users : Map User) (name : Text) → IsGuarded users → IsGuarded (del_user users name).0
unfolding del_user
del_user-IsGuarded users name g = elim (Bool-cases (text_eq name default_name)) [
  | inl same ↦ rw same g
  | inr other ↦ rw other (elim (Bool-cases (Map.has users name)) [
    | inl there ↦ rw there (delete-IsGuarded users name other g)
    | inr absent ↦ rw absent g
  ])
]

default_user-IsPlain :
    (hash : Text → Text) (password : Option Text) → IsPlain (default_user hash password)
unfolding default_user new_user
default_user-IsPlain hash none = record {
  no_commands = λ h. refl;
  no_patterns = λ h. refl;
  no_passwords = λ h. refl;
}
default_user-IsPlain hash (some []) = record {
  no_commands = λ h. refl;
  no_patterns = λ h. refl;
  no_passwords = λ h. refl;
}
default_user-IsPlain hash (some (c ∷ password)) = record {
  no_commands = λ h. refl;
  no_patterns = λ h. refl;
  no_passwords = λ h. cc;
}

-- The users that the constructor makes, with or without a password, have the default user, and every
-- user of them is plain.
pub init_users-IsGuarded :
    (hash : Text → Text) (password : Option Text) → IsGuarded (init_users hash password)
unfolding init_users Map.set Map.has Map.get text_eq
init_users-IsGuarded hash password = record {
  default_stays = refl;
  all_plain = λ k v e. elim (Bool-cases (text_eq default_name k)) [
    | inl same ↦
        IsPlain-of_some (default_user hash password) v (default_user-IsPlain hash password)
          (ground (arith, e))
    | inr other ↦ absurd (ground (arith, e))
  ];
}
