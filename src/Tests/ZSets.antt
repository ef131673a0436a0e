-- ===== src/Tests/ZSets.antt =====
-- The operations of sorted sets.
use redis_clone_js.Prelude.{ℕ, ◌≡◌, refl, List, [], ◌∷◌, arith}
use redis_clone_js.Prelude.Text.{Text, text, text_eq, text_lt}
use redis_clone_js.Map
use redis_clone_js.Store.{Item, ZSet}
use redis_clone_js.ZSets.{zset_insert, zadd_pairs, zincrby_member, zrem_members, item_le}
use redis_clone_js.ZSets.Insert.{insert_sorted, zset_insert-eq-insert_sorted}
use redis_clone_js.ZSets.Remove.{score_of}
use redis_clone_js.ZSets.Valid.{
  IsValid, zadd_pairs-IsValid, zincrby_member-IsValid, zrem_members-IsValid,
}
use redis_clone_js.Tests.Data.{nat_floats, nat_floats-IsOrdered}

abbrev item : ℕ → Text → Item ℕ
item score member = record { member = member; score = score }

abbrev ranking : List (Item ℕ)
ranking = item 1 (text "b") ∷ item 2 (text "a") ∷ item 2 (text "c") ∷ []

abbrev zset : ZSet ℕ
zset = record {
  member_to_score = (text "a", 2) ∷ (text "b", 1) ∷ (text "c", 2) ∷ [];
  sorted = ranking;
}

zset-IsValid : IsValid nat_floats zset
unfolding item_le text_lt score_of text_eq Map.has Map.get
zset-IsValid = record {
  sorted_up = ((refl, (refl, tt)), ((refl, tt), (tt, tt)));
  unique_members = (refl, (refl, (refl, tt)));
  unique_keys = (refl, (refl, (refl, tt)));
  same_scores = λ m. ground arith;
  same_size = refl;
}

zset_insert-eq-insert_sorted_example :
    zset_insert nat_floats ranking (item 2 (text "b"))
    ≡ item 1 (text "b") ∷ item 2 (text "a") ∷ item 2 (text "b") ∷ item 2 (text "c") ∷ []
unfolding insert_sorted item_le text_lt
zset_insert-eq-insert_sorted_example =
    zset_insert-eq-insert_sorted nat_floats nat_floats-IsOrdered ranking (item 2 (text "b"))
      (zset-IsValid.sorted_up)

zadd_pairs-IsValid_example :
    IsValid nat_floats
      (zadd_pairs nat_floats ((text "5", text "b") ∷ (text "x", text "a") ∷ []) zset 0).0
zadd_pairs-IsValid_example =
    zadd_pairs-IsValid nat_floats nat_floats-IsOrdered
      ((text "5", text "b") ∷ (text "x", text "a") ∷ []) zset 0 zset-IsValid

zincrby_member-IsValid_example : IsValid nat_floats (zincrby_member nat_floats (text "b") 4 zset)
zincrby_member-IsValid_example =
    zincrby_member-IsValid nat_floats nat_floats-IsOrdered (text "b") 4 zset zset-IsValid

zrem_members-IsValid_example :
    IsValid nat_floats (zrem_members (text "a" ∷ text "d" ∷ text "a" ∷ []) zset 0).0
zrem_members-IsValid_example =
    zrem_members-IsValid nat_floats nat_floats-IsOrdered (text "a" ∷ text "d" ∷ text "a" ∷ []) zset
      0 zset-IsValid
