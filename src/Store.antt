-- ===== src/Store.antt =====
-- src/core/DataStore.js: the state of the data store, and the helpers that every command goes by.
-- An entry's type and its value are set apart in the source, and some commands write a value of
-- another kind under an old type, so they are apart here too.
pub mod View
pub mod Consistent
pub mod Present
pub mod Looks
pub mod Timer
use redis_clone_js.Prelude.{
  ℕ, Bool, true, false, Option, none, some, List, [], ◌∷◌, ◌++◌, if◌then◌else◌, String,
}
use redis_clone_js.Prelude.Text.{Text, text}
use redis_clone_js.Prelude.Int.{ℤ, pos, ltb_ℤ}
use redis_clone_js.Map
use redis_clone_js.Map.{Map}
use redis_clone_js.Protocol.{encode_error}
use redis_clone_js.Cmd.{
  Cmd, Outcome, throws, unmodelled, pure, raise, with_state, modify, ◌>>=◌, ◌>>◌,
}

-- A member of a sorted set with its score. `Score` stands for the doubles that `parseFloat` gives.
pub record Item (Score : Type 0) : Type 0 where
  pub member : Text
  pub score : Score

pub record ZSet (Score : Type 0) : Type 0 where
  pub member_to_score : Map Score
  pub sorted : List (Item Score)

pub data EntryType : Type 0 where
  string list hash set zset : EntryType

pub data Value (Score : Type 0) : Type 0 where
  str : Text → Value Score
  arr : List Text → Value Score
  fields : Map Text → Value Score
  members : List Text → Value Score
  scored : ZSet Score → Value Score

pub record Entry (Score : Type 0) : Type 0 where
  pub type : EntryType
  pub value : Value Score

-- `events` are the keys handed to the callback `_onKeyEvent('expired', key)`, the last one first.
pub record Store (Score : Type 0) : Type 0 where
  pub kv : Map (Entry Score)
  pub expires : Map ℤ
  pub events : List Text

abbrev pub init : {Score : Type 0} → Store Score
init = record { kv = []; expires = []; events = [] }

-- A command's handler replies with the text that goes to the socket.
abbrev pub Handler : Type 0 → Type 0
Handler Score = Cmd (Store Score) Text

abbrev pub reply : {Score : Type 0} → Text → Handler Score
reply t = pure t

abbrev pub fail : {Score : Type 0} → String → Handler Score
fail message = pure (encode_error (text message))

abbrev pub wrong_type : {Score : Type 0} → Handler Score
wrong_type = fail "WRONGTYPE Operation against a key holding the wrong kind of value"

abbrev pub not_an_integer : {Score : Type 0} → Handler Score
not_an_integer = fail "value is not an integer or out of range"

-- now >= exp
unfoldable pub is_due : ℕ → Option ℤ → Bool
is_due now none = false
is_due now (some exp) = if ltb_ℤ (pos now) exp then false else true

-- One reading of the clock serves a whole command: `now` is `_now()`.
module _ {Score : Type 0} where
  unfoldable pub remove : Text → Store Score → Store Score
  remove key s = record s { kv = Map.delete s.kv key; expires = Map.delete s.expires key }

  unfoldable pub put : Text → Entry Score → Store Score → Store Score
  put key entry s = record s { kv = Map.set s.kv key entry }

  unfoldable pub set_expiry : Text → ℤ → Store Score → Store Score
  set_expiry key exp s = record s { expires = Map.set s.expires key exp }

  unfoldable pub clear_expiry : Text → Store Score → Store Score
  clear_expiry key s = record s { expires = Map.delete s.expires key }

  -- Its Boolean result is used by no caller.
  unfoldable pub purge_if_expired : ℕ → Text → Store Score → Store Score
  unfolding is_due remove
  purge_if_expired now key s = if is_due now (Map.get s.expires key) then remove key s else s

  unfoldable pub lookup_entry : ℕ → Text → Store Score → Option (Entry Score) × Store Score
  unfolding purge_if_expired
  lookup_entry now key s = let s' = purge_if_expired now key s in (Map.get s'.kv key, s')

  unfoldable pub get_entry : ℕ → Text → Cmd (Store Score) (Option (Entry Score))
  unfolding lookup_entry
  get_entry now key = with_state (lookup_entry now key)

  -- The pass of the timer over the entries of `expires`; each key is given to the callback.
  unfoldable pub purge_keys : ℕ → Map ℤ → Store Score → Store Score
  unfolding is_due remove
  purge_keys now [] s = s
  purge_keys now ((key, exp) ∷ rest) s = purge_keys now rest (
      if is_due now (some exp)
      then (let s' = remove key s in record s' { events = key ∷ s'.events })
      else s)

  unfoldable pub purge_expired_batch : ℕ → Store Score → Store Score
  unfolding purge_keys
  purge_expired_batch now s = purge_keys now s.expires s

-- What an `_ensure…Entry` helper gives: null, "WRONGTYPE" or the entry, by its value.
pub data Ensured (A : Type 0) : Type 0 where
  missing other_type : Ensured A
  found : A → Ensured A

abbrev pub same_type : EntryType → EntryType → Bool
same_type string string = true
same_type list list = true
same_type hash hash = true
same_type set set = true
same_type zset zset = true
same_type _ _ = false

abbrev pub to_bool : {A : Type 0} → Option A → Bool
to_bool none = false
to_bool (some _) = true

module _ {Score : Type 0} where
  unfoldable pub or_unmodelled : {A : Type 0} → Option A → Cmd (Store Score) (Ensured A)
  or_unmodelled none = raise unmodelled
  or_unmodelled (some a) = pure (found a)

  unfoldable pub or_throws : {A : Type 0} → Option A → Cmd (Store Score) A
  or_throws none = raise throws
  or_throws (some a) = pure a

  unfoldable pub classify :
      {A : Type 0}
      → EntryType
      → (Value Score → Option A)
      → Option (Entry Score)
      → Cmd (Store Score) (Ensured A)
  unfolding or_unmodelled
  classify type as_kind none = pure missing
  classify type as_kind (some e) =
      if same_type e.type type then or_unmodelled (as_kind e.value) else pure other_type

  -- `_ensureStringEntry` and its likes, for the type and the kind of value given.
  unfoldable pub ensure :
      {A : Type 0} → EntryType → (Value Score → Option A) → ℕ → Text → Cmd (Store Score) (Ensured A)
  unfolding get_entry classify
  ensure type as_kind now key = do entry ← get_entry now key; classify type as_kind entry

  -- The error reply on a wrong type, and the two other cases.
  unfoldable pub ensured :
      {A : Type 0} → Ensured A → Handler Score → (A → Handler Score) → Handler Score
  ensured missing absent present = absent
  ensured other_type absent present = wrong_type
  ensured (found a) absent present = present a

  unfoldable pub init_entry :
      Text → Entry Score → Option (Entry Score) → Cmd (Store Score) (Entry Score)
  unfolding put
  init_entry key fresh none = do modify (put key fresh); pure fresh
  init_entry key fresh (some e) = pure e

  -- `_getOrInitString` and its likes: they give an entry of any type, and never "WRONGTYPE".
  unfoldable pub get_or_init : Entry Score → ℕ → Text → Cmd (Store Score) (Entry Score)
  unfolding get_entry init_entry
  get_or_init fresh now key = do entry ← get_entry now key; init_entry key fresh entry

  -- entry.value = v, where the entry stands under `key`
  unfoldable pub assign : Text → Entry Score → Value Score → Store Score → Store Score
  unfolding put
  assign key e v s = put key (record e { value = v }) s

  abbrev pub as_arr : Value Score → Option (List Text)
  as_arr (arr l) = some l
  as_arr _ = none

  abbrev pub as_fields : Value Score → Option (Map Text)
  as_fields (fields m) = some m
  as_fields _ = none

  abbrev pub as_members : Value Score → Option (List Text)
  as_members (members l) = some l
  as_members _ = none

  abbrev pub as_scored : Value Score → Option (ZSet Score)
  as_scored (scored z) = some z
  as_scored _ = none

unfoldable pub join : List Text → Text
join [] = []
join (x ∷ []) = x
join (x ∷ y ∷ rest) = x ++ b',' ∷ join (y ∷ rest)

module _ {Score : Type 0} where
  -- String(value), of an array, a Map, a Set and an object too
  unfoldable pub to_string : Value Score → Text
  unfolding join
  to_string (str t) = t
  to_string (arr l) = join l
  to_string (fields m) = text "[object Map]"
  to_string (members l) = text "[object Set]"
  to_string (scored z) = text "[object Object]"

  -- The text of a string entry is always read through `String(…)`.
  unfoldable pub ensure_string : ℕ → Text → Cmd (Store Score) (Ensured Text)
  unfolding ensure to_string
  ensure_string = ensure string (λ v. some (to_string v))

  unfoldable pub ensure_list : ℕ → Text → Cmd (Store Score) (Ensured (List Text))
  unfolding ensure
  ensure_list = ensure list as_arr

  unfoldable pub ensure_hash : ℕ → Text → Cmd (Store Score) (Ensured (Map Text))
  unfolding ensure
  ensure_hash = ensure hash as_fields

  unfoldable pub ensure_set : ℕ → Text → Cmd (Store Score) (Ensured (List Text))
  unfolding ensure
  ensure_set = ensure set as_members

  unfoldable pub ensure_zset : ℕ → Text → Cmd (Store Score) (Ensured (ZSet Score))
  unfolding ensure
  ensure_zset = ensure zset as_scored

  unfoldable pub get_or_init_string : ℕ → Text → Cmd (Store Score) (Entry Score)
  unfolding get_or_init
  get_or_init_string = get_or_init (record { type = string; value = str [] })

  unfoldable pub get_or_init_list : ℕ → Text → Cmd (Store Score) (Entry Score)
  unfolding get_or_init
  get_or_init_list = get_or_init (record { type = list; value = arr [] })

  unfoldable pub get_or_init_hash : ℕ → Text → Cmd (Store Score) (Entry Score)
  unfolding get_or_init
  get_or_init_hash = get_or_init (record { type = hash; value = fields [] })

  unfoldable pub get_or_init_set : ℕ → Text → Cmd (Store Score) (Entry Score)
  unfolding get_or_init
  get_or_init_set = get_or_init (record { type = set; value = members [] })

  unfoldable pub get_or_init_zset : ℕ → Text → Cmd (Store Score) (Entry Score)
  unfolding get_or_init
  get_or_init_zset =
      get_or_init
        (record { type = zset; value = scored (record { member_to_score = []; sorted = [] }) })
