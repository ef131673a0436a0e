-- ===== src/ZSets/Remove.antt =====
-- Members in the array: looking them up, inserting and removing them.
use redis_clone_js.Prelude.{
  suc, ◌≡◌, refl, Option, none, some, List, [], ◌∷◌, arith, length, if◌then◌else◌, Bool-cases, inl,
  inr,
}
use redis_clone_js.Prelude.Text.{Text, text_eq, text_eq_iff}
use redis_clone_js.Map.Laws.{is_some}
use redis_clone_js.Number.{Floats}
use redis_clone_js.Store.{Item}
use redis_clone_js.ZSets.{item_le, zset_remove_from_sorted}
use redis_clone_js.ZSets.Order.{AllBehind, IsSorted}
use redis_clone_js.ZSets.Insert.{insert_sorted}

module _ {Score : Type 0} where
  -- The score that the array gives to a member.
  unfoldable pub score_of : List (Item Score) → Text → Option Score
  score_of [] m = none
  score_of (x ∷ xs) m = if text_eq x.member m then some x.score else score_of xs m

  -- No member stands twice in the array.
  abbrev pub UniqueMembers : List (Item Score) → Type 0
  UniqueMembers [] = Unit
  UniqueMembers (x ∷ xs) = (score_of xs x.member ≡ none) × UniqueMembers xs

  unfoldable pub remove_member : Text → List (Item Score) → List (Item Score)
  remove_member m [] = []
  remove_member m (x ∷ xs) = if text_eq x.member m then xs else x ∷ remove_member m xs

  pub zset_remove_from_sorted-eq-remove_member :
      (xs : List (Item Score)) (m : Text) → zset_remove_from_sorted xs m ≡ remove_member m xs
  unfolding zset_remove_from_sorted remove_member
  zset_remove_from_sorted-eq-remove_member [] m = refl
  zset_remove_from_sorted-eq-remove_member (x ∷ xs) m =
      ground (arith, zset_remove_from_sorted-eq-remove_member xs m)

  pub score_of-remove_member :
      (xs : List (Item Score)) (m k : Text)
      → UniqueMembers xs
      → score_of (remove_member m xs) k ≡ (if text_eq m k then none else score_of xs k)
  unfolding score_of remove_member
  score_of-remove_member [] m k u = ground arith
  score_of-remove_member (x ∷ xs) m k u = ground (
    arith,
    score_of-remove_member xs m k u.1,
    text_eq_iff x.member m,
    text_eq_iff x.member k,
    text_eq_iff m k,
    u.0,
  )

  pub remove_member-UniqueMembers :
      (m : Text) (xs : List (Item Score)) → UniqueMembers xs → UniqueMembers (remove_member m xs)
  unfolding remove_member
  remove_member-UniqueMembers m [] u = tt
  remove_member-UniqueMembers m (x ∷ xs) u = elim (Bool-cases (text_eq x.member m)) [
    | inl same ↦ rw same u.1
    | inr other ↦ rw other (
      ground (arith, score_of-remove_member xs m x.member u.1, u.0),
      remove_member-UniqueMembers m xs u.1,
    )
  ]

  pub length-remove_member :
      (m : Text) (xs : List (Item Score))
      → length xs ≡ (
          if is_some (score_of xs m)
          then suc (length (remove_member m xs))
          else length (remove_member m xs))
  unfolding score_of remove_member
  length-remove_member m [] = refl
  length-remove_member m (x ∷ xs) = ground (arith, length-remove_member m xs)

  module _ (f : Floats Score) where
    AllBehind-remove_member :
        (y : Item Score) (m : Text) (xs : List (Item Score))
        → AllBehind f y xs
        → AllBehind f y (remove_member m xs)
    unfolding remove_member
    AllBehind-remove_member y m [] b = tt
    AllBehind-remove_member y m (x ∷ xs) b = elim (Bool-cases (text_eq x.member m)) [
      | inl same ↦ rw same b.1
      | inr other ↦ rw other (b.0, AllBehind-remove_member y m xs b.1)
    ]

    pub remove_member-IsSorted :
        (m : Text) (xs : List (Item Score)) → IsSorted f xs → IsSorted f (remove_member m xs)
    unfolding remove_member
    remove_member-IsSorted m [] s = tt
    remove_member-IsSorted m (x ∷ xs) s = elim (Bool-cases (text_eq x.member m)) [
      | inl same ↦ rw same s.1
      | inr other ↦ rw other (AllBehind-remove_member x m xs s.0, remove_member-IsSorted m xs s.1)
    ]

    pub score_of-insert_sorted :
        (item : Item Score) (xs : List (Item Score)) (k : Text)
        → score_of xs item.member ≡ none
        → score_of (insert_sorted f item xs) k
          ≡ (if text_eq item.member k then some item.score else score_of xs k)
    unfolding score_of insert_sorted
    score_of-insert_sorted item [] k h = refl
    score_of-insert_sorted item (x ∷ xs) k h = ground (
      arith,
      score_of-insert_sorted item xs k,
      text_eq_iff x.member item.member,
      text_eq_iff x.member k,
      text_eq_iff item.member k,
    )

    pub insert_sorted-UniqueMembers :
        (item : Item Score) (xs : List (Item Score))
        → score_of xs item.member ≡ none
        → UniqueMembers xs
        → UniqueMembers (insert_sorted f item xs)
    unfolding insert_sorted score_of
    insert_sorted-UniqueMembers item [] h u = (refl, tt)
    insert_sorted-UniqueMembers item (x ∷ xs) h u = elim (Bool-cases (item_le f item x)) [
      | inl le ↦ rw le (h, u)
      | inr gt ↦ rw gt (
        ground (
          arith,
          score_of-insert_sorted item xs x.member,
          text_eq_iff x.member item.member,
          text_eq_iff item.member x.member,
          u.0,
        ),
        insert_sorted-UniqueMembers item xs (ground arith) u.1,
      )
    ]

    pub length-insert_sorted :
        (item : Item Score) (xs : List (Item Score))
        → length (insert_sorted f item xs) ≡ suc (length xs)
    unfolding insert_sorted
    length-insert_sorted item [] = refl
    length-insert_sorted item (x ∷ xs) = ground (arith, length-insert_sorted item xs)
