-- ===== src/Server/Keys.antt =====
-- src/server/Server.js: `_extractKeysForAcl`, the keys that the access control list is asked for.
use redis_clone_js.Prelude.{◌||◌, Option, none, some, List, [], ◌∷◌, map, take, if◌then◌else◌}
use redis_clone_js.Prelude.Text.{Text, text}
use redis_clone_js.SetOf
use redis_clone_js.Server.KeyTables.{
  first_key_core, first_key_other, every_argument, first_two_keys,
}
use redis_clone_js.Server.Databases.{mset_commands}

-- String(a) of an argument
abbrev pub or_null : Option Text → Text
or_null none = text "null"
or_null (some t) = t

-- The arguments at even positions, alone.
unfoldable pub at_even : List Text → List Text
at_even [] = []
at_even (a ∷ []) = a ∷ []
at_even (a ∷ b ∷ args) = a ∷ at_even args

unfoldable pub keys_of_texts : Text → List Text → List Text
unfolding at_even SetOf.has
keys_of_texts upper args =
    if SetOf.has first_key_core upper || SetOf.has first_key_other upper
    then take 1 args
    else if SetOf.has every_argument upper
    then args
    else if SetOf.has mset_commands upper
    then at_even args
    else if SetOf.has first_two_keys upper
    then take 2 args
    else []

unfoldable pub extract_keys_for_acl : Text → List (Option Text) → List Text
unfolding keys_of_texts
extract_keys_for_acl upper args = keys_of_texts upper (map or_null args)
