-- ===== src/Strings/Exchange.antt =====
-- src/core/DataStore.js: SETEX, PSETEX, GETSET, GETDEL, GETEX, INCRBYFLOAT.
use redis_clone_js.Prelude.{ℕ, Option, some, List, [], ◌∷◌, if◌then◌else◌}
use redis_clone_js.Prelude.Text.{Text, text, text_eq, to_upper}
use redis_clone_js.Prelude.Int.{ℤ, pos, ◌+ℤ◌, ◌*ℤ◌}
use redis_clone_js.Number.{parse_int, Floats}
use redis_clone_js.Cmd.{modify, given, ◌>>=◌, ◌>>◌}
use redis_clone_js.Protocol.{encode_simple_string, encode_bulk_string}
use redis_clone_js.Store.{
  Store, str, string, Handler, reply, fail, wrong_type, not_an_integer, remove, put, set_expiry,
  clear_expiry, get_entry, same_type, to_string, assign, get_or_init_string,
}
use redis_clone_js.Keyspace.{string_entry, null}
use redis_clone_js.Keyspace.Options.{positive_int}
use redis_clone_js.Strings.{set_string}

module _ {Score : Type 0} where
  unfoldable pub set_until : Text → Text → ℤ → Store Score → Store Score
  set_until key value exp s = set_expiry key exp (put key (string_entry value) s)

  unfoldable pub setex : ℕ → List Text → Handler Score
  unfolding set_until
  setex now (key ∷ seconds_text ∷ value ∷ []) =
      given (positive_int (parse_int seconds_text)) not_an_integer (λ seconds. do
        modify (set_until key value (pos now +ℤ seconds *ℤ pos 1000))
        reply (encode_simple_string (text "OK")))
  setex now _ = fail "wrong number of arguments for 'SETEX'"

  unfoldable pub psetex : List Text → Handler Score
  psetex args = fail "unknown command 'PSETEX'"

  unfoldable pub getset : ℕ → List Text → Handler Score
  unfolding set_string
  getset now (key ∷ value ∷ []) = do
    entry ← get_entry now key
    given entry (do modify (set_string key value); null)
        (λ e.
          if same_type e.type string
          then (do
            modify (set_string key value)
            reply (encode_bulk_string (some (to_string e.value))))
          else wrong_type)
  getset now _ = fail "wrong number of arguments for 'GETSET'"

  unfoldable pub getdel : ℕ → List Text → Handler Score
  getdel now (key ∷ []) = do
    entry ← get_entry now key
    given entry null (λ e.
        if same_type e.type string
        then (do modify (remove key); reply (encode_bulk_string (some (to_string e.value))))
        else wrong_type)
  getdel now _ = fail "wrong number of arguments for 'GETDEL'"

  -- The change that an option of GETEX makes, with the text of its number.
  unfoldable pub getex_option : ℕ → Text → Text → Text → Text → Handler Score
  unfolding positive_int
  getex_option now key value opt arg =
      if text_eq opt (text "PERSIST")
      then (do modify (clear_expiry key); reply (encode_bulk_string (some value)))
      else if text_eq opt (text "EX")
      then given (positive_int (parse_int arg)) not_an_integer (λ seconds. do
        modify (set_expiry key (pos now +ℤ seconds *ℤ pos 1000))
        reply (encode_bulk_string (some value)))
      else if text_eq opt (text "PX")
      then given (positive_int (parse_int arg)) not_an_integer (λ ms. do
        modify (set_expiry key (pos now +ℤ ms))
        reply (encode_bulk_string (some value)))
      else fail "syntax error"

  -- An option without its number reads the text "undefined".
  unfoldable pub getex_args : ℕ → Text → Text → List Text → Handler Score
  unfolding getex_option
  getex_args now key value [] = reply (encode_bulk_string (some value))
  getex_args now key value (opt ∷ []) = getex_option now key value (to_upper opt) (text "undefined")
  getex_args now key value (opt ∷ arg ∷ _) = getex_option now key value (to_upper opt) arg

  unfoldable pub getex : ℕ → List Text → Handler Score
  unfolding getex_args
  getex now [] = fail "wrong number of arguments for 'GETEX'"
  getex now (key ∷ opts) = do
    entry ← get_entry now key
    given entry null (λ e.
        if same_type e.type string then getex_args now key (to_string e.value) opts else wrong_type)

  abbrev current_float : Floats Score → Text → Option Score
  current_float f [] = some f.zero_score
  current_float f (c ∷ s) = f.parse (c ∷ s)

  unfoldable pub incrbyfloat : Floats Score → ℕ → List Text → Handler Score
  incrbyfloat f now (key ∷ by_text ∷ []) =
      given (f.parse by_text) (fail "value is not a valid float") (λ by. do
        entry ← get_or_init_string now key
        given (current_float f (to_string entry.value)) (fail "value is not a valid float") (λ cur.
            do
              modify (assign key entry (str (f.show (f.add cur by))))
              reply (encode_bulk_string (some (f.show (f.add cur by))))))
  incrbyfloat f now _ = fail "wrong number of arguments for 'INCRBYFLOAT'"
