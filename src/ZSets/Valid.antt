-- ===== src/ZSets/Valid.antt =====
-- The invariant of a sorted set, and that ZADD, ZINCRBY and ZREM keep it.
use redis_clone_js.Prelude.{
  ℕ, ◌≡◌, refl, sym, ap, ◌∙◌, true, false, ◌||◌, Option, none, some, List, [], ◌∷◌, arith, length,
  Bool-cases, Option-cases, inl, inr,
}
use redis_clone_js.Prelude.Text.{Text, text_eq_refl}
use redis_clone_js.Map
use redis_clone_js.Map.Laws.{
  is_some, has-eq-get, get-set, get-delete, length-set, length-delete, set-Unique, delete-Unique,
}
use redis_clone_js.Number.{Floats, IsOrdered}
use redis_clone_js.Store.{Item, ZSet}
use redis_clone_js.ZSets.{
  zset_insert, zset_remove_from_sorted, zadd_member, zadd_pairs, new_score, zincrby_member,
  zrem_member, zrem_members,
}
use redis_clone_js.ZSets.Order.{IsSorted}
use redis_clone_js.ZSets.Insert.{zset_insert-eq-insert_sorted, insert_sorted-IsSorted}
use redis_clone_js.ZSets.Remove.{
  score_of, UniqueMembers, remove_member, zset_remove_from_sorted-eq-remove_member,
  score_of-remove_member, remove_member-UniqueMembers, length-remove_member, remove_member-IsSorted,
  score_of-insert_sorted, insert_sorted-UniqueMembers, length-insert_sorted,
}

-- The array is sorted and holds each member once, and the map gives the scores of the array.
pub record IsValid {Score : Type 0} (f : Floats Score) (z : ZSet Score) : Type 0 where
  pub sorted_up : IsSorted f z.sorted
  pub unique_members : UniqueMembers z.sorted
  pub unique_keys : Map.Unique z.member_to_score
  pub same_scores : (m : Text) → Map.get z.member_to_score m ≡ score_of z.sorted m
  pub same_size : length z.member_to_score ≡ length z.sorted

none_of_not_some {ℓ} : {A : Type ℓ} {x : Option A} → is_some x ≡ false → x ≡ none
none_of_not_some {x = none} h = refl
none_of_not_some {x = some a} h = cc

module _ {Score : Type 0} (f : Floats Score) (o : IsOrdered f) where
  pub empty-IsValid : IsValid f (record { member_to_score = []; sorted = [] })
  unfolding Map.get score_of
  empty-IsValid = record {
    sorted_up = tt;
    unique_members = tt;
    unique_keys = tt;
    same_scores = λ m. refl;
    same_size = refl;
  }

  -- A new member: it goes into the map and into the array.
  insert_new-IsValid :
      (m : Text) (score : Score) (z : ZSet Score)
      → IsValid f z
      → Map.get z.member_to_score m ≡ none
      → IsValid f (record {
        member_to_score = Map.set z.member_to_score m score;
        sorted = zset_insert f z.sorted (record { member = m; score = score });
      })
  insert_new-IsValid m score z v new =
      let item : Item Score = record { member = m; score = score } in
      let absent = sym (v.same_scores m) ∙ new in
      rw (zset_insert-eq-insert_sorted f o z.sorted item v.sorted_up) (record {
        sorted_up = insert_sorted-IsSorted f o item z.sorted v.sorted_up;
        unique_members = insert_sorted-UniqueMembers f item z.sorted absent v.unique_members;
        unique_keys = set-Unique z.member_to_score m score v.unique_keys;
        same_scores = λ k. ground (
          arith,
          get-set z.member_to_score m k score,
          score_of-insert_sorted f item z.sorted k absent,
          v.same_scores k,
        );
        same_size = ground (
          arith,
          length-set z.member_to_score m score,
          has-eq-get z.member_to_score m,
          length-insert_sorted f item z.sorted,
          v.same_size,
          new,
        );
      })

  -- A member leaves the map and the array.
  pub delete-IsValid :
      (m : Text) (z : ZSet Score)
      → IsValid f z
      → IsValid f (record {
        member_to_score = Map.delete z.member_to_score m;
        sorted = remove_member m z.sorted;
      })
  delete-IsValid m z v = record {
    sorted_up = remove_member-IsSorted f m z.sorted v.sorted_up;
    unique_members = remove_member-UniqueMembers m z.sorted v.unique_members;
    unique_keys = delete-Unique z.member_to_score m v.unique_keys;
    same_scores = λ k. ground (
      arith,
      get-delete z.member_to_score m k,
      score_of-remove_member z.sorted m k v.unique_members,
      v.same_scores k,
    );
    same_size = ground (
      arith,
      length-delete z.member_to_score m v.unique_keys,
      has-eq-get z.member_to_score m,
      length-remove_member m z.sorted,
      v.same_scores m,
      v.same_size,
    );
  }

  -- A member that is there gets another score.
  replace-IsValid :
      (m : Text) (score : Score) (z : ZSet Score)
      → IsValid f z
      → Map.has z.member_to_score m ≡ true
      → IsValid f (record {
        member_to_score = Map.set z.member_to_score m score;
        sorted =
            zset_insert f
              (zset_remove_from_sorted z.sorted m)
              (record { member = m; score = score });
      })
  replace-IsValid m score z v old =
      let item : Item Score = record { member = m; score = score } in
      let rest = remove_member m z.sorted in
      let w = delete-IsValid m z v in
      let absent : score_of rest m ≡ none =
        ground (arith, score_of-remove_member z.sorted m m v.unique_members, text_eq_refl m) in
      rw
        (
          zset_remove_from_sorted-eq-remove_member z.sorted m,
          zset_insert-eq-insert_sorted f o rest item w.sorted_up,
        )
        (record {
          sorted_up = insert_sorted-IsSorted f o item rest w.sorted_up;
          unique_members = insert_sorted-UniqueMembers f item rest absent w.unique_members;
          unique_keys = set-Unique z.member_to_score m score v.unique_keys;
          same_scores = λ k. ground (
            arith,
            get-set z.member_to_score m k score,
            score_of-insert_sorted f item rest k absent,
            score_of-remove_member z.sorted m k v.unique_members,
            v.same_scores k,
          );
          same_size = ground (
            arith,
            length-set z.member_to_score m score,
            has-eq-get z.member_to_score m,
            length-insert_sorted f item rest,
            length-remove_member m z.sorted,
            v.same_scores m,
            v.same_size,
          );
        })

  zadd_member-IsValid :
      (m : Text) (score : Score) (z : ZSet Score)
      → IsValid f z
      → IsValid f (zadd_member f m score z)
  unfolding zadd_member
  zadd_member-IsValid m score z v = elim (Option-cases (Map.get z.member_to_score m)) [
    | inl new ↦ rw (new, zadd_member) (insert_new-IsValid m score z v new)
    | inr (prev, old) ↦
        rw (old, zadd_member)
          (elim (Bool-cases (f.lt prev score || f.lt score prev)) [
            | inl moves ↦
                rw moves
                  (replace-IsValid m score z v (has-eq-get z.member_to_score m ∙ ap is_some old))
            | inr stays ↦ rw stays v
          ])
  ]

  -- Where `<` orders the scores, ZADD keeps a sorted set valid, also where a bad score ends it half
  -- way: the array is sorted, holds each member once, and has the scores of the map.
  pub zadd_pairs-IsValid :
      (ps : List (Text × Text)) (z : ZSet Score) (n : ℕ)
      → IsValid f z
      → IsValid f (zadd_pairs f ps z n).0
  unfolding zadd_pairs
  zadd_pairs-IsValid [] z n v = v
  zadd_pairs-IsValid ((t, m) ∷ ps) z n v = elim (Option-cases (f.parse t)) [
    | inl bad ↦ rw (bad, zadd_pairs) v
    | inr (score, good) ↦
        rw (good, zadd_pairs)
          (zadd_pairs-IsValid ps (zadd_member f m score z) _ (zadd_member-IsValid m score z v))
  ]

  -- Where `<` orders the scores, ZINCRBY keeps a sorted set valid, whether the member is new or not.
  pub zincrby_member-IsValid :
      (m : Text) (inc : Score) (z : ZSet Score) → IsValid f z → IsValid f (zincrby_member f m inc z)
  unfolding zincrby_member
  zincrby_member-IsValid m inc z v = elim (Bool-cases (Map.has z.member_to_score m)) [
    | inl old ↦ rw old (replace-IsValid m (new_score f m inc z) z v old)
    | inr new ↦ rw new (
        insert_new-IsValid m (new_score f m inc z) z v
          (none_of_not_some (sym (has-eq-get z.member_to_score m) ∙ new)))
  ]

  zrem_member-IsValid : (m : Text) (z : ZSet Score) → IsValid f z → IsValid f (zrem_member m z)
  unfolding zrem_member
  zrem_member-IsValid m z v = elim (Bool-cases (Map.has z.member_to_score m)) [
    | inl old ↦ rw (old, zset_remove_from_sorted-eq-remove_member z.sorted m) (delete-IsValid m z v)
    | inr new ↦ rw new v
  ]

  -- Where `<` orders the scores, ZREM keeps a sorted set valid.
  pub zrem_members-IsValid :
      (ms : List Text) (z : ZSet Score) (n : ℕ) → IsValid f z → IsValid f (zrem_members ms z n).0
  unfolding zrem_members
  zrem_members-IsValid [] z n v = v
  zrem_members-IsValid (m ∷ ms) z n v =
      zrem_members-IsValid ms (zrem_member m z) _ (zrem_member-IsValid m z v)
