-- ===== src/Sets/Algebra.antt =====
-- src/core/DataStore.js: SINTER, SUNION, SDIFF and their STORE forms.
use redis_clone_js.Prelude.{
  ℕ, Bool, true, ◌&&◌, Option, none, some, List, [], ◌∷◌, map, length, leb, if◌then◌else◌,
}
use redis_clone_js.Prelude.Text.{Text}
use redis_clone_js.Prelude.Int.{pos}
use redis_clone_js.SetOf
use redis_clone_js.Cmd.{Cmd, pure, modify, given, ◌>>=◌, ◌>>◌}
use redis_clone_js.Protocol.{encode_integer, encode_array_of_bulk_strings}
use redis_clone_js.Store.{
  Store, Entry, members, Ensured, missing, other_type, found, Handler, reply, fail, wrong_type,
  clear_expiry, ensure_set, get_or_init_set, assign,
}

-- sets.sort((a, b) => a.size - b.size), which keeps the order of sets of one size
unfoldable pub insert_by_size : List Text → List (List Text) → List (List Text)
insert_by_size s [] = s ∷ []
insert_by_size s (t ∷ rest) =
    if leb (length s) (length t) then s ∷ t ∷ rest else t ∷ insert_by_size s rest

unfoldable pub sort_by_size : List (List Text) → List (List Text)
unfolding insert_by_size
sort_by_size [] = []
sort_by_size (s ∷ rest) = insert_by_size s (sort_by_size rest)

unfoldable pub in_all : List (List Text) → Text → Bool
in_all [] v = true
in_all (s ∷ rest) v = SetOf.has s v && in_all rest v

-- The members of the first set that are in all the others.
unfoldable pub common : List Text → List (List Text) → List Text
unfolding in_all
common [] rest = []
common (v ∷ first) rest = let out = common first rest in if in_all rest v then v ∷ out else out

unfoldable pub intersection : List (List Text) → List Text
unfolding common
intersection [] = []
intersection (first ∷ rest) = common first rest

unfoldable pub add_all : List Text → List Text → List Text
add_all [] s = s
add_all (v ∷ vs) s = add_all vs (SetOf.add s v)

unfoldable pub delete_all : List Text → List Text → List Text
delete_all [] s = s
delete_all (v ∷ vs) s = delete_all vs (SetOf.delete s v)

module _ {Score : Type 0} where
  -- Each loop over the keys ends at the first key of another type, with `none`.
  unfoldable pub next_set :
      {A : Type 0}
      → Ensured (List Text)
      → (List Text → Cmd (Store Score) (Option A))
      → Cmd (Store Score) (Option A)
  next_set missing go_on = go_on []
  next_set other_type go_on = pure none
  next_set (found l) go_on = go_on l

  unfoldable pub collect_sets : ℕ → List Text → Cmd (Store Score) (Option (List (List Text)))
  unfolding next_set
  collect_sets now [] = pure (some [])
  collect_sets now (k ∷ ks) = do
    e ← ensure_set now k
    next_set e
        (λ l. do rest ← collect_sets now ks; given rest (pure none) (λ ls. pure (some (l ∷ ls))))

  unfoldable pub union_keys : ℕ → List Text → List Text → Cmd (Store Score) (Option (List Text))
  unfolding next_set add_all
  union_keys now acc [] = pure (some acc)
  union_keys now acc (k ∷ ks) = do
    e ← ensure_set now k
    next_set e (λ l. union_keys now (add_all l acc) ks)

  unfoldable pub subtract_keys : ℕ → List Text → List Text → Cmd (Store Score) (Option (List Text))
  unfolding next_set delete_all
  subtract_keys now acc [] = pure (some acc)
  subtract_keys now acc (k ∷ ks) = do
    e ← ensure_set now k
    next_set e (λ l. subtract_keys now (delete_all l acc) ks)

  abbrev pub members_reply : Option (List Text) → Handler Score
  members_reply o = given o wrong_type (λ l. reply (encode_array_of_bulk_strings (map some l)))

  unfoldable pub sinter : ℕ → List Text → Handler Score
  unfolding collect_sets sort_by_size intersection
  sinter now keys = do
    sets ← collect_sets now keys
    given sets wrong_type
        (λ ls. reply (encode_array_of_bulk_strings (map some (intersection (sort_by_size ls)))))

  unfoldable pub sunion : ℕ → List Text → Handler Score
  unfolding union_keys
  sunion now keys = do union ← union_keys now [] keys; members_reply union

  unfoldable pub sdiff : ℕ → List Text → Handler Score
  unfolding subtract_keys next_set
  sdiff now [] = reply (encode_array_of_bulk_strings [])
  sdiff now (k ∷ ks) = do
    e ← ensure_set now k
    difference ← next_set e (λ base. subtract_keys now base ks)
    members_reply difference

  -- dest.value = result, whatever the type of the entry under `dest`
  unfoldable pub store_result : Text → Entry Score → List Text → Handler Score
  store_result dest entry result = do
    modify (assign dest entry (members result))
    modify (clear_expiry dest)
    reply (encode_integer (pos (length result)))

  unfoldable pub sunionstore : ℕ → List Text → Handler Score
  unfolding union_keys store_result
  sunionstore now (dest ∷ k ∷ ks) = do
    entry ← get_or_init_set now dest
    result ← union_keys now [] (k ∷ ks)
    given result wrong_type (λ l. store_result dest entry l)
  sunionstore now _ = fail "wrong number of arguments for 'SUNIONSTORE'"

  unfoldable pub sinterstore : ℕ → List Text → Handler Score
  unfolding collect_sets sort_by_size intersection store_result
  sinterstore now (dest ∷ k ∷ ks) = do
    sets ← collect_sets now (k ∷ ks)
    given sets wrong_type (λ ls. do
      entry ← get_or_init_set now dest
      store_result dest entry (intersection (sort_by_size ls)))
  sinterstore now _ = fail "wrong number of arguments for 'SINTERSTORE'"

  unfoldable pub sdiffstore : ℕ → List Text → Handler Score
  unfolding subtract_keys next_set store_result
  sdiffstore now (dest ∷ k ∷ ks) = do
    e ← ensure_set now k
    difference ← next_set e (λ base. subtract_keys now base ks)
    given difference wrong_type
        (λ l. do entry ← get_or_init_set now dest; store_result dest entry l)
  sdiffstore now _ = fail "wrong number of arguments for 'SDIFFSTORE'"
