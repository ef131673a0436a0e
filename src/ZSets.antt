-- ===== src/ZSets.antt =====
-- src/core/DataStore.js: the two structures of a sorted set, a map from member to score and an array
-- ordered by score and member, and the operations that keep them together.
pub mod Order
pub mod Insert
pub mod Remove
pub mod Valid
pub mod Commands
pub mod Consistent
use redis_clone_js.Prelude.{
  ℕ, zero, suc, ◌+◌, ◌/◌, Bool, true, false, not, ◌||◌, Option, none, some, List, [], ◌∷◌, ◌++◌,
  length, get_elem?, take, drop, ltb, if◌then◌else◌,
}
use redis_clone_js.Prelude.Text.{Text, text_eq, text_lt}
use redis_clone_js.Prelude.Int.{ℤ, pos, negsuc, ltb_ℤ}
use redis_clone_js.Map
use redis_clone_js.Number.{Floats}
use redis_clone_js.Store.{Item, ZSet}

-- `_zsetIndexOf`, with `none` for -1
unfoldable pub zset_index_of : {Score : Type 0} → List (Item Score) → Text → Option ℕ
zset_index_of [] member = none
zset_index_of (x ∷ sorted) member =
    if text_eq x.member member
    then some 0
    else elim (zset_index_of sorted member) [ Option.none ↦ none | Option.some i ↦ some (suc i) ]

-- sorted.splice(idx, 1) and sorted.splice(lo, 0, item)
abbrev pub remove_at : {A : Type 0} → ℕ → List A → List A
remove_at i xs = take i xs ++ drop (suc i) xs

abbrev pub insert_at : {A : Type 0} → ℕ → A → List A → List A
insert_at i x xs = take i xs ++ x ∷ drop i xs

unfoldable pub zset_remove_from_sorted :
    {Score : Type 0} → List (Item Score) → Text → List (Item Score)
unfolding zset_index_of
zset_remove_from_sorted sorted member = elim (zset_index_of sorted member) [
  | Option.none ↦ sorted
  | Option.some i ↦ remove_at i sorted
]

module _ {Score : Type 0} (f : Floats Score) where
  unfoldable pub zset_compare : Item Score → Item Score → ℤ
  zset_compare a b =
      if f.lt a.score b.score
      then negsuc 0
      else if f.lt b.score a.score
      then pos 1
      else if text_lt a.member b.member
      then negsuc 0
      else if text_lt b.member a.member
      then pos 1
      else pos 0

  -- cmp <= 0
  unfoldable pub item_le : Item Score → Item Score → Bool
  unfolding zset_compare
  item_le a b = not (ltb_ℤ (pos 0) (zset_compare a b))

  -- The binary search of `_zsetInsert`. The fuel is the number of rounds allowed, at most `hi - lo`.
  unfoldable pub insert_index : ℕ → Item Score → List (Item Score) → ℕ → ℕ → ℕ
  insert_index zero item sorted lo hi = lo
  insert_index (suc fuel) item sorted lo hi = elim (ltb lo hi) [
    | Bool.false ↦ lo
    | Bool.true ↦ elim (get_elem? sorted ((lo + hi) / 2)) [
      | Option.none ↦ lo
      | Option.some x ↦ elim (item_le item x) [
        | Bool.true ↦ insert_index fuel item sorted lo ((lo + hi) / 2)
        | Bool.false ↦ insert_index fuel item sorted ((lo + hi) / 2 + 1) hi
      ]
    ]
  ]

  unfoldable pub zset_insert : List (Item Score) → Item Score → List (Item Score)
  unfolding insert_index item_le
  zset_insert sorted item =
      insert_at (insert_index (length sorted) item sorted 0 (length sorted)) item sorted

  -- One step of ZADD: the new set, and whether the member is new.
  unfoldable pub zadd_member : Text → Score → ZSet Score → ZSet Score
  unfolding zset_insert zset_remove_from_sorted
  zadd_member member score z =
      let item : Item Score = record { member = member; score = score } in
      elim (Map.get z.member_to_score member) [
        | Option.some prev ↦
            if f.lt prev score || f.lt score prev
            then record {
              member_to_score = Map.set z.member_to_score member score;
              sorted = zset_insert (zset_remove_from_sorted z.sorted member) item;
            }
            else z
        | Option.none ↦ record {
          member_to_score = Map.set z.member_to_score member score;
          sorted = zset_insert z.sorted item;
        }
      ]

  -- The loop of ZADD, up to a score that is no finite number; the count is missing then.
  unfoldable pub zadd_pairs : List (Text × Text) → ZSet Score → ℕ → ZSet Score × Option ℕ
  unfolding zadd_member
  zadd_pairs [] z added = (z, some added)
  zadd_pairs ((score_text, member) ∷ rest) z added = elim (f.parse score_text) [
    | Option.none ↦ (z, none)
    | Option.some score ↦
        zadd_pairs rest (zadd_member member score z)
          (if Map.has z.member_to_score member then added else added + 1)
  ]

  -- ZINCRBY: the new score, and the set with it.
  unfoldable pub new_score : Text → Score → ZSet Score → Score
  new_score member inc z = elim (Map.get z.member_to_score member) [
    | Option.some cur ↦ f.add cur inc
    | Option.none ↦ f.add f.zero_score inc
  ]

  unfoldable pub zincrby_member : Text → Score → ZSet Score → ZSet Score
  unfolding zset_insert zset_remove_from_sorted new_score
  zincrby_member member inc z =
      let next = new_score member inc z in
      record {
        member_to_score = Map.set z.member_to_score member next;
        sorted =
            zset_insert
              (if Map.has z.member_to_score member
                then zset_remove_from_sorted z.sorted member
                else z.sorted)
              (record { member = member; score = next });
      }

-- One step of ZREM.
unfoldable pub zrem_member : {Score : Type 0} → Text → ZSet Score → ZSet Score
unfolding zset_remove_from_sorted
zrem_member member z =
    if Map.has z.member_to_score member
    then record {
      member_to_score = Map.delete z.member_to_score member;
      sorted = zset_remove_from_sorted z.sorted member;
    }
    else z

-- The loop of ZREM: the new set and the number of removed members.
unfoldable pub zrem_members : {Score : Type 0} → List Text → ZSet Score → ℕ → ZSet Score × ℕ
unfolding zrem_member
zrem_members [] z removed = (z, removed)
zrem_members (m ∷ rest) z removed =
    zrem_members rest (zrem_member m z)
      (if Map.has z.member_to_score m then removed + 1 else removed)
