-- ===== src/Acl/Check.antt =====
-- src/server/acl.js: `check` and `globMatch`, and the lists of users.
use redis_clone_js.Prelude.{
  ℕ, zero, suc, ◌+◌, ◌*◌, Bool, true, false, not, ◌&&◌, ◌||◌, Option, none, some, List, [], ◌∷◌,
  ◌++◌, ◌==◌, length, ltb, if◌then◌else◌,
}
use redis_clone_js.Prelude.Text.{Text, text}
use redis_clone_js.Number.{show_ℕ}
use redis_clone_js.Map.{Map}
use redis_clone_js.SetOf
use redis_clone_js.Acl.Rules.{User}
use redis_clone_js.Acl.{effective_user}

-- A pass of the loop of `globMatch`: what is left of the pattern and of the text, and, after a star,
-- the pattern behind it and the text it was met at.
pub data GlobStep : Type 0 where
  accept reject : GlobStep
  again : Text → Text → Option (Text × Text) → GlobStep

-- star !== -1: the star takes one more character.
abbrev retry : Option (Text × Text) → GlobStep
retry none = reject
retry (some (p, [])) = reject
retry (some (p, c ∷ t)) = again p t (some (p, t))

-- The stars at the end.
unfoldable pub only_stars : Text → Bool
only_stars [] = true
only_stars (c ∷ p) = (c == b'*') && only_stars p

unfoldable pub glob_step : Text → Text → Option (Text × Text) → GlobStep
unfolding only_stars
glob_step p [] star = if only_stars p then accept else reject
glob_step [] (c ∷ t) star = retry star
glob_step (a ∷ p) (c ∷ t) star =
    if a == b'?' || a == c
    then again p t star
    else if a == b'*'
    then again p (c ∷ t) (some (p, c ∷ t))
    else retry star

abbrev glob_next : (Text → Text → Option (Text × Text) → Bool) → GlobStep → Bool
glob_next loop accept = true
glob_next loop reject = false
glob_next loop (again p t star) = loop p t star

-- The loop. The fuel is the number of passes.
unfoldable pub glob_loop : ℕ → Text → Text → Option (Text × Text) → Bool
unfolding glob_step
glob_loop zero p t star = false
glob_loop (suc fuel) p t star = glob_next (glob_loop fuel) (glob_step p t star)

-- More passes than the loop can take: a star takes a character of the text once, and between two
-- such passes every other one takes a character of the pattern.
abbrev pub glob_fuel : ℕ → ℕ → ℕ
glob_fuel p t = (t + 2) * (p + t + 1)

unfoldable pub glob_match : Text → Text → Bool
unfolding glob_loop
glob_match pattern t = glob_loop (glob_fuel (length pattern) (length t)) pattern t none

-- Whether some pattern matches the key.
unfoldable pub some_match : List Text → Text → Bool
unfolding glob_match
some_match [] key = false
some_match (pattern ∷ patterns) key = glob_match pattern key || some_match patterns key

unfoldable pub every_key_matches : List Text → List Text → Bool
unfolding some_match
every_key_matches patterns [] = true
every_key_matches patterns (key ∷ keys) = some_match patterns key && every_key_matches patterns keys

pub data CheckResult : Type 0 where
  permitted not_enabled command_denied key_denied : CheckResult

unfoldable pub check_user : User → Text → List Text → CheckResult
unfolding every_key_matches
check_user user upper_cmd keys =
    if not user.active
    then not_enabled
    else if not (user.all_commands || SetOf.has user.allowed_commands upper_cmd)
    then command_denied
    else if user.all_keys || every_key_matches user.key_patterns keys
    then permitted
    else key_denied

abbrev check_found : Option User → Text → List Text → CheckResult
check_found none upper_cmd keys = not_enabled
check_found (some user) upper_cmd keys = check_user user upper_cmd keys

unfoldable pub check : Map User → Text → Text → List Text → CheckResult
unfolding check_user effective_user
check users user_name upper_cmd keys = check_found (effective_user users user_name) upper_cmd keys

-- The message of a denial.
abbrev pub denial : CheckResult → Option Text
denial permitted = none
denial not_enabled = some (text "ACLs are not enabled for this user")
denial command_denied = some (text "ACL: command not permitted")
denial key_denied = some (text "ACL: key not permitted")

abbrev counted : Text → ℕ → Text
counted t zero = t
counted t (suc n) = t ++ (b'+' ∷ show_ℕ (suc n))

abbrev word : Text → Text
word t = b' ' ∷ t

-- A line of `listUsers`.
unfoldable pub describe_user : User → Text
unfolding show_ℕ
describe_user user =
    text "user"
    ++ (word user.name
        ++ (word (if user.active then text "on" else text "off")
            ++ ((if user.nopass then word (text "nopass") else [])
                ++ ((if ltb 0 (length user.passwords)
                      then word (b'>' ∷ show_ℕ (length user.passwords))
                      else [])
                    ++ (word (
                          if user.all_commands
                          then text "allcommands"
                          else counted (text "rescommands") (length user.allowed_commands))
                        ++ word (
                            if user.all_keys
                            then text "allkeys"
                            else counted (text "reskeys") (length user.key_patterns)))))))

unfoldable pub list_users : Map User → List Text
unfolding describe_user
list_users [] = []
list_users ((name, user) ∷ users) = describe_user user ∷ list_users users

unfoldable pub users_list : Map User → List Text
users_list [] = []
users_list ((name, user) ∷ users) = name ∷ users_list users
