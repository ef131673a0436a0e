-- ===== src/ZSets/Commands.antt =====
-- src/core/DataStore.js: ZADD, ZREM, ZRANK, ZREVRANK, ZSCORE, ZCARD, ZRANGE, ZREVRANGE, ZINCRBY,
-- ZPOPMIN, ZPOPMAX.
use redis_clone_js.Prelude.{
  ℕ, zero, suc, Bool, true, false, Option, none, some, List, [], ◌∷◌, if◌then◌else◌,
}
use mathlib.Core.List.{reverse}
use redis_clone_js.Prelude.Text.{Text, text, text_eq, to_upper}
use redis_clone_js.Prelude.Int.{ℤ, pos, pos_part, ltb_ℤ}
use redis_clone_js.Map
use redis_clone_js.Number.{parse_int, Floats}
use redis_clone_js.Strings.{pairs_of}
use redis_clone_js.Strings.Range.{slice_range}
use redis_clone_js.Cmd.{modify, given, ◌>>=◌, ◌>>◌}
use redis_clone_js.Protocol.{encode_integer, encode_bulk_string, encode_array_of_bulk_strings}
use redis_clone_js.Store.{
  Store, Entry, scored, zset, Item, ZSet, Handler, reply, fail, not_an_integer, or_throws,
  as_scored, put, ensured, ensure_zset, get_or_init_zset, assign,
}
use redis_clone_js.Keyspace.{null}
use redis_clone_js.ZSets.{zset_index_of, zadd_pairs, new_score, zincrby_member, zrem_members}

-- Members, each with its score behind it under WITHSCORES.
unfoldable pub listed :
    {Score : Type 0} → (Score → Text) → Bool → List (Item Score) → List (Option Text)
listed show with_scores [] = []
listed show with_scores (x ∷ xs) =
    let rest = listed show with_scores xs in
    if with_scores then some x.member ∷ some (show x.score) ∷ rest else some x.member ∷ rest

-- The loop of ZPOPMIN (from the head) or ZPOPMAX (from the tail): the set left and the members.
abbrev is_empty : {A : Type 0} → List A → Bool
is_empty [] = true
is_empty (_ ∷ _) = false

unfoldable pub split_last : {A : Type 0} → List A → Option (A × List A)
split_last [] = none
split_last (x ∷ xs) = elim (split_last xs) [
  | Option.none ↦ some (x, [])
  | Option.some (y, rest) ↦ some (y, x ∷ rest)
]

abbrev split_first : {A : Type 0} → List A → Option (A × List A)
split_first [] = none
split_first (x ∷ xs) = some (x, xs)

unfoldable pub pop_items :
    {Score : Type 0} → Bool → ℕ → ZSet Score → ZSet Score × List (Option Text)
unfolding split_last
pop_items min_first zero z = (z, [])
pop_items min_first (suc count) z =
    elim (if min_first then split_first z.sorted else split_last z.sorted) [
      | Option.none ↦ (z, [])
      | Option.some (x, rest) ↦
          let (z', out) =
            pop_items min_first count
              (record { member_to_score = Map.delete z.member_to_score x.member; sorted = rest }) in
          (z', some x.member ∷ out)
    ]

module _ {Score : Type 0} where
  -- The set under `key` is changed in place; its entry is a sorted set.
  unfoldable pub write_zset : Text → ZSet Score → Store Score → Store Score
  write_zset key z s = put key (record { type = zset; value = scored z }) s

  unfoldable pub zrem : ℕ → List Text → Handler Score
  unfolding write_zset zrem_members
  zrem now (key ∷ m ∷ ms) = do
    entry ← ensure_zset now key
    ensured entry (reply (encode_integer (pos 0))) (λ z. do
      modify (write_zset key (zrem_members (m ∷ ms) z 0).0)
      reply (encode_integer (pos (zrem_members (m ∷ ms) z 0).1)))
  zrem now _ = fail "wrong number of arguments for 'ZREM'"

  abbrev index_reply : Option ℕ → Handler Score
  index_reply o = given o null (λ i. reply (encode_integer (pos i)))

  unfoldable pub zrank : ℕ → List Text → Handler Score
  unfolding zset_index_of
  zrank now (key ∷ m ∷ []) = do
    entry ← ensure_zset now key
    ensured entry null (λ z. index_reply (zset_index_of z.sorted m))
  zrank now _ = fail "wrong number of arguments for 'ZRANK'"

  unfoldable pub zrevrank : ℕ → List Text → Handler Score
  unfolding zset_index_of
  zrevrank now (key ∷ m ∷ []) = do
    entry ← ensure_zset now key
    ensured entry null (λ z. index_reply (zset_index_of (reverse z.sorted) m))
  zrevrank now _ = fail "wrong number of arguments for 'ZREVRANK'"

  unfoldable pub zcard : ℕ → List Text → Handler Score
  zcard now (key ∷ []) = do
    entry ← ensure_zset now key
    ensured entry (reply (encode_integer (pos 0)))
        (λ z. reply (encode_integer (pos (Map.size z.member_to_score))))
  zcard now _ = fail "wrong number of arguments for 'ZCARD'"

  -- ZPOPMIN and ZPOPMAX pop one item at least, also for a count of 0.
  unfoldable pub zpop_count : ℕ → Text → Bool → Option ℤ → Handler Score
  unfolding write_zset pop_items
  zpop_count now key min_first count = do
    entry ← ensure_zset now key
    ensured entry (reply (encode_array_of_bulk_strings [])) (λ z.
        if is_empty z.sorted
        then reply (encode_array_of_bulk_strings [])
        else given count not_an_integer (λ n. if ltb_ℤ n (pos 0) then not_an_integer else (do
          let count = if ltb_ℤ (pos 1) n then pos_part n else 1
          modify (write_zset key (pop_items min_first count z).0)
          reply (encode_array_of_bulk_strings (pop_items min_first count z).1))))

  unfoldable pub zpop : Bool → ℕ → List Text → Handler Score
  unfolding zpop_count
  zpop min_first now (key ∷ []) = zpop_count now key min_first (some (pos 1))
  zpop min_first now (key ∷ count_text ∷ []) = zpop_count now key min_first (parse_int count_text)
  zpop min_first now _ = fail "wrong number of arguments for 'ZPOP'"

  module _ (f : Floats Score) where
    -- The set is looked at when the first score has been read.
    unfoldable pub zadd_entry : Text → Entry Score → List (Text × Text) → Handler Score
    unfolding zadd_pairs
    zadd_entry key entry [] = reply (encode_integer (pos 0))
    zadd_entry key entry ((score_text, member) ∷ ps) =
        given (f.parse score_text) (fail "value is not a valid float") (λ _. do
          z ← or_throws (as_scored entry.value)
          let result = zadd_pairs f ((score_text, member) ∷ ps) z 0
          modify (assign key entry (scored result.0))
          given result.1 (fail "value is not a valid float")
              (λ added. reply (encode_integer (pos added))))

    unfoldable pub zadd_args : ℕ → Text → List (Text × Text) → Handler Score
    unfolding zadd_entry
    zadd_args now key ps = do entry ← get_or_init_zset now key; zadd_entry key entry ps

    unfoldable pub zadd : ℕ → List Text → Handler Score
    unfolding zadd_args pairs_of
    zadd now [] = fail "wrong number of arguments for 'ZADD'"
    zadd now (key ∷ rest) = elim (pairs_of rest) [
      | Option.some (p ∷ ps) ↦ zadd_args now key (p ∷ ps)
      | _ ↦ fail "wrong number of arguments for 'ZADD'"
    ]

    unfoldable pub zscore : ℕ → List Text → Handler Score
    zscore now (key ∷ m ∷ []) = do
      entry ← ensure_zset now key
      ensured entry null (λ z.
          given (Map.get z.member_to_score m) null
            (λ score. reply (encode_bulk_string (some (f.show score)))))
    zscore now _ = fail "wrong number of arguments for 'ZSCORE'"

    unfoldable pub zrange_reply : Bool → List (Item Score) → Option ℤ → Option ℤ → Handler Score
    unfolding listed
    zrange_reply with_scores items (some start) (some stop) =
        reply
          (encode_array_of_bulk_strings (listed f.show with_scores (slice_range start stop items)))
    zrange_reply with_scores items _ _ = not_an_integer

    -- ZRANGE reads the array as it is, ZREVRANGE a reversed copy.
    unfoldable pub zrange_of :
        (List (Item Score) → List (Item Score)) → ℕ → Text → Text → Text → Bool → Handler Score
    unfolding zrange_reply
    zrange_of order now key start stop with_scores = do
      entry ← ensure_zset now key
      ensured entry (zrange_reply with_scores [] (parse_int start) (parse_int stop))
          (λ z. zrange_reply with_scores (order z.sorted) (parse_int start) (parse_int stop))

    unfoldable pub zrange : ℕ → List Text → Handler Score
    unfolding zrange_of
    zrange now (key ∷ start ∷ stop ∷ []) = zrange_of (λ l. l) now key start stop false
    zrange now (key ∷ start ∷ stop ∷ opt ∷ []) =
        if text_eq (to_upper opt) (text "WITHSCORES")
        then zrange_of (λ l. l) now key start stop true
        else fail "syntax error"
    zrange now _ = fail "wrong number of arguments for 'ZRANGE'"

    unfoldable pub zrevrange : ℕ → List Text → Handler Score
    unfolding zrange_of
    zrevrange now (key ∷ start ∷ stop ∷ []) = zrange_of reverse now key start stop false
    zrevrange now (key ∷ start ∷ stop ∷ opt ∷ []) =
        if text_eq (to_upper opt) (text "WITHSCORES")
        then zrange_of reverse now key start stop true
        else fail "syntax error"
    zrevrange now _ = fail "wrong number of arguments for 'ZREVRANGE'"

    unfoldable pub zincrby : ℕ → List Text → Handler Score
    unfolding zincrby_member new_score
    zincrby now (key ∷ inc_text ∷ m ∷ []) =
        given (f.parse inc_text) (fail "value is not a valid float") (λ inc. do
          entry ← get_or_init_zset now key
          z ← or_throws (as_scored entry.value)
          modify (assign key entry (scored (zincrby_member f m inc z)))
          reply (encode_bulk_string (some (f.show (new_score f m inc z)))))
    zincrby now _ = fail "wrong number of arguments for 'ZINCRBY'"
