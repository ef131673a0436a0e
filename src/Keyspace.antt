-- ===== src/Keyspace.antt =====
-- src/core/DataStore.js: SET, GET, DEL, EXISTS, KEYS, FLUSHDB, TYPE, DBSIZE, RENAME, RENAMENX.
pub mod Options
pub mod Consistent
pub mod Views
pub mod SetViews
pub mod SetGet
pub mod RenameViews
use redis_clone_js.Prelude.{
  ℕ, zero, suc, ◌+◌, ◌*◌, Bool, true, false, not, ◌&&◌, ◌||◌, ◌==◌, Option, none, some, List, [],
  ◌∷◌, ◌++◌, map, length, if◌then◌else◌,
}
use redis_clone_js.Prelude.Text.{Text, text}
use redis_clone_js.Prelude.Int.{ℤ, pos, negsuc}
use redis_clone_js.Map
use redis_clone_js.Cmd.{Cmd, pure, raise, throws, gets, modify, given, ◌>>=◌, ◌>>◌}
use redis_clone_js.Protocol.{
  encode_simple_string, encode_error, encode_integer, encode_bulk_string,
  encode_array_of_bulk_strings,
}
use redis_clone_js.Store.{
  Store, Entry, EntryType, string, list, hash, zset, Value, str, Handler, reply, fail, wrong_type,
  remove, put, set_expiry, clear_expiry, purge_if_expired, get_entry, same_type, ensured,
  ensure_string, to_string, to_bool,
}
use redis_clone_js.Keyspace.Options.{
  SetOptions, SetArgs, accepted, rejected, no_options, set_options,
}

abbrev pub type_name : EntryType → Text
type_name string = text "string"
type_name list = text "list"
type_name hash = text "hash"
type_name EntryType.set = text "set"
type_name zset = text "zset"

abbrev any_unit : ℕ → Text → Bool
any_unit c [] = false
any_unit c (x ∷ s) = c == x || any_unit c s

-- pat.replace(/[.+^${}()|\\]/g, '\\$&').replace(/\*/g, '.*'), for one character
unfoldable pub glob_unit : ℕ → Text
glob_unit c =
    if any_unit c (text ".+^${}()|\\")
    then b'\\' ∷ c ∷ []
    else if c == b'*'
    then b'.' ∷ b'*' ∷ []
    else c ∷ []

unfoldable pub glob_units : Text → Text
unfolding glob_unit
glob_units [] = []
glob_units (c ∷ pat) = glob_unit c ++ glob_units pat

-- The source of the regular expression that `keys` makes from a pattern.
unfoldable pub glob_source : Text → Text
unfolding glob_units
glob_source [] = text "^.*$"
glob_source (c ∷ pat) = b'^' ∷ glob_units (c ∷ pat) ++ text "$"

module _ {Score : Type 0} where
  abbrev pub string_entry : Text → Entry Score
  string_entry value = record { type = string; value = str value }

  abbrev pub null : Handler Score
  null = reply (encode_bulk_string none)

  -- `existing && existing.type === 'string' ? String(existing.value) : null`
  abbrev pub old_value : Option (Entry Score) → Option Text
  old_value none = none
  old_value (some e) = if same_type e.type string then some (to_string e.value) else none

  -- The deadline that SET leaves: the one given, or none, unless KEEPTTL keeps the old one.
  unfoldable pub store_deadline : Text → SetOptions → Store Score → Store Score
  store_deadline key o s = elim o.expire_at [
    | Option.some exp ↦ set_expiry key exp s
    | Option.none ↦ if o.keep_ttl then s else clear_expiry key s
  ]

  unfoldable pub set_entry : Text → Text → SetOptions → Store Score → Store Score
  unfolding store_deadline
  set_entry key value o s = store_deadline key o (put key (string_entry value) s)

  unfoldable pub set_checked : ℕ → Text → Text → SetOptions → Handler Score
  unfolding set_entry
  set_checked now key value o = if o.nx && o.xx then fail "syntax error" else do
    existing ← get_entry now key
    if o.nx && to_bool existing then null else if o.xx && not (to_bool existing) then null else do
      modify (set_entry key value o)
      if o.get_opt
          then reply (encode_bulk_string (old_value existing))
          else reply (encode_simple_string (text "OK"))

  unfoldable pub set : ℕ → List Text → Handler Score
  unfolding set_checked
  set now (key ∷ value ∷ opts) = elim (set_options now no_options opts) [
    | SetArgs.rejected message ↦ reply (encode_error message)
    | SetArgs.accepted o ↦ set_checked now key value o
  ]
  set now _ = fail "wrong number of arguments for 'SET'"

  unfoldable pub get : ℕ → List Text → Handler Score
  get now (key ∷ []) = do
    entry ← ensure_string now key
    ensured entry null (λ value. reply (encode_bulk_string (some value)))
  get now _ = fail "wrong number of arguments for 'GET'"

  unfoldable pub del_keys : ℕ → ℕ → List Text → Cmd (Store Score) ℕ
  del_keys now removed [] = pure removed
  del_keys now removed (k ∷ ks) = do
    modify (purge_if_expired now k)
    present ← gets (λ s. Map.has s.kv k)
    if present then modify (remove k) else pure tt
    del_keys now (if present then removed + 1 else removed) ks

  unfoldable pub del : ℕ → List Text → Handler Score
  unfolding del_keys
  del now [] = fail "wrong number of arguments for 'DEL'"
  del now (k ∷ ks) = do removed ← del_keys now 0 (k ∷ ks); reply (encode_integer (pos removed))

  unfoldable pub count_existing : ℕ → ℕ → List Text → Cmd (Store Score) ℕ
  count_existing now count [] = pure count
  count_existing now count (k ∷ ks) = do
    entry ← get_entry now k
    count_existing now (if to_bool entry then count + 1 else count) ks

  unfoldable pub exists : ℕ → List Text → Handler Score
  unfolding count_existing
  exists now [] = fail "wrong number of arguments for 'EXISTS'"
  exists now (k ∷ ks) = do count ← count_existing now 0 (k ∷ ks); reply (encode_integer (pos count))

  -- The loop over `kv.keys()`, which removes the expired keys that it meets. `matches` is the test
  -- of the regular expression made from the pattern.
  unfoldable pub matching_keys : (Text → Bool) → ℕ → List Text → Cmd (Store Score) (List Text)
  matching_keys matches now [] = pure []
  matching_keys matches now (k ∷ ks) = do
    modify (purge_if_expired now k)
    present ← gets (λ s. Map.has s.kv k)
    out ← matching_keys matches now ks
    pure (if present && matches k then k ∷ out else out)

  unfoldable pub live_keys : (Text → Bool) → ℕ → Cmd (Store Score) (List Text)
  unfolding matching_keys
  live_keys matches now = do all ← gets (λ s. Map.keys s.kv); matching_keys matches now all

  -- `regex_test` is `new RegExp(source)` with its `test`; it is `none` for a SyntaxError.
  unfoldable pub keys : (Text → Option (Text → Bool)) → ℕ → List Text → Handler Score
  unfolding live_keys glob_source
  keys regex_test now (pattern_text ∷ []) =
      given (regex_test (glob_source pattern_text)) (raise throws) (λ matches. do
        matched ← live_keys matches now
        reply (encode_array_of_bulk_strings (map some matched)))
  keys regex_test now _ = fail "wrong number of arguments for 'KEYS'"

  unfoldable pub flush : List Text → Handler Score
  flush [] = do
    modify (λ s. record s { kv = []; expires = [] })
    reply (encode_simple_string (text "OK"))
  flush (_ ∷ _) = fail "wrong number of arguments for 'FLUSHDB'"

  unfoldable pub type : ℕ → List Text → Handler Score
  type now (key ∷ []) = do
    entry ← get_entry now key
    given entry (reply (encode_simple_string (text "none")))
        (λ e. reply (encode_simple_string (type_name e.type)))
  type now _ = fail "wrong number of arguments for 'TYPE'"

  unfoldable pub dbsize : ℕ → List Text → Handler Score
  unfolding live_keys
  dbsize now [] = do all ← live_keys (λ _. true) now; reply (encode_integer (pos (length all)))
  dbsize now (_ ∷ _) = fail "wrong number of arguments for 'DBSIZE'"

  -- The entry goes to `dst` with its deadline, and `src` is removed.
  unfoldable pub move_entry : Text → Text → Entry Score → Store Score → Store Score
  move_entry src dst e s =
      let s' = put dst e s in
      let s'' : Store Score = elim (Map.get s.expires src) [
        | Option.some ttl ↦ set_expiry dst ttl s'
        | Option.none ↦ clear_expiry dst s'
      ] in
      remove src s''

  unfoldable pub rename : ℕ → List Text → Handler Score
  unfolding move_entry
  rename now (src ∷ dst ∷ []) = do
    entry ← get_entry now src
    given entry (fail "no such key")
        (λ e. do modify (move_entry src dst e); reply (encode_simple_string (text "OK")))
  rename now _ = fail "wrong number of arguments for 'RENAME'"

  unfoldable pub renamenx : ℕ → List Text → Handler Score
  unfolding move_entry
  renamenx now (src ∷ dst ∷ []) = do
    entry ← get_entry now src
    given entry (fail "no such key") (λ e. do
      taken ← get_entry now dst
      if to_bool taken
          then reply (encode_integer (pos 0))
          else do modify (move_entry src dst e); reply (encode_integer (pos 1)))
  renamenx now _ = fail "wrong number of arguments for 'RENAMENX'"
