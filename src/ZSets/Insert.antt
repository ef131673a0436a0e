-- ===== src/ZSets/Insert.antt =====
-- The binary search of `_zsetInsert` is the linear insertion, on a sorted array.
use redis_clone_js.Prelude.{
  ℕ, zero, suc, ◌+◌, ◌-◌, ◌/◌, ◌≤◌, ◌<◌, ◌≡◌, refl, ap, ◌∙◌, true, false, some, List, [], ◌∷◌,
  arith, length, get_elem?, ltb, if◌then◌else◌, Bool-cases, inl, inr,
}
use redis_clone_js.Number.{Floats, IsOrdered}
use redis_clone_js.Store.{Item}
use redis_clone_js.ZSets.{item_le, insert_index, insert_at, zset_insert}
use redis_clone_js.ZSets.Order.{AllBehind, IsSorted, item_le_total, item_le_trans}

module _ {Score : Type 0} (f : Floats Score) where
  -- The number of items in front of the first one that is not before `item`.
  position : Item Score → List (Item Score) → ℕ
  position item [] = 0
  position item (x ∷ xs) = if item_le f item x then 0 else suc (position item xs)

  -- The reference: the item goes in front of the first one that is not before it.
  unfoldable pub insert_sorted : Item Score → List (Item Score) → List (Item Score)
  insert_sorted item [] = item ∷ []
  insert_sorted item (x ∷ xs) =
      if item_le f item x then item ∷ x ∷ xs else x ∷ insert_sorted item xs

  position-le-length : (item : Item Score) (xs : List (Item Score)) → position item xs ≤ length xs
  unfolding position
  position-le-length item [] = omega arith
  position-le-length item (x ∷ xs) = ground (arith, position-le-length item xs)

  insert_at-position :
      (item : Item Score) (xs : List (Item Score))
      → insert_at (position item xs) item xs ≡ insert_sorted item xs
  unfolding position insert_sorted
  insert_at-position item [] = refl
  insert_at-position item (x ∷ xs) = elim (Bool-cases (item_le f item x)) [
    | inl le ↦ rw le refl
    | inr gt ↦ rw gt (ap (x ∷◌) (insert_at-position item xs))
  ]

  position-le :
      (item x : Item Score) (xs : List (Item Score)) (i : ℕ)
      → get_elem? xs i ≡ some x
      → item_le f item x ≡ true
      → position item xs ≤ i
  unfolding position
  position-le item x [] i e le = cc
  position-le item x (y ∷ xs) zero e le = ground arith
  position-le item x (y ∷ xs) (suc i) e le = ground (arith, position-le item x xs i e le)

  AllBehind-get_elem? :
      (y x : Item Score) (xs : List (Item Score)) (i : ℕ)
      → AllBehind f y xs
      → get_elem? xs i ≡ some x
      → item_le f y x ≡ true
  AllBehind-get_elem? y x [] i b e = cc
  AllBehind-get_elem? y x (z ∷ xs) zero b e = ground (arith, b.0)
  AllBehind-get_elem? y x (z ∷ xs) (suc i) b e = AllBehind-get_elem? y x xs i b.1 e

  module _ (o : IsOrdered f) where
    lt-position :
        (item x : Item Score) (xs : List (Item Score)) (i : ℕ)
        → IsSorted f xs
        → get_elem? xs i ≡ some x
        → item_le f item x ≡ false
        → i < position item xs
    unfolding position
    lt-position item x [] i s e gt = cc
    lt-position item x (y ∷ xs) zero s e gt = ground arith
    lt-position item x (y ∷ xs) (suc i) s e gt = ground (
      arith,
      lt-position item x xs i s.1 e gt,
      item_le_trans f o item y x,
      AllBehind-get_elem? y x xs i s.0 e,
    )

    get_elem?-some :
        (xs : List (Item Score)) (i : ℕ)
        → i < length xs
        → (x : Item Score) × (get_elem? xs i ≡ some x)
    get_elem?-some [] i h = absurd (omega arith)
    get_elem?-some (x ∷ xs) zero h = (x, refl)
    get_elem?-some (x ∷ xs) (suc i) h = get_elem?-some xs i (omega arith)

    insert_index-eq-position :
        (fuel : ℕ) (item : Item Score) (xs : List (Item Score)) (lo hi : ℕ)
        → IsSorted f xs
        → lo ≤ position item xs
        → position item xs ≤ hi
        → hi ≤ length xs
        → hi - lo ≤ fuel
        → insert_index f fuel item xs lo hi ≡ position item xs
    unfolding insert_index
    insert_index-eq-position zero item xs lo hi s a b c d = omega arith
    insert_index-eq-position (suc fuel) item xs lo hi s a b c d = elim (Bool-cases (ltb lo hi)) [
      | inr done ↦ ground arith
      | inl more ↦
          let (x, e) = get_elem?-some xs ((lo + hi) / 2) (ground arith) in
          elim (Bool-cases (item_le f item x)) [
            | inl le ↦ ground (
              arith,
              position-le item x xs ((lo + hi) / 2) e le,
              insert_index-eq-position fuel item xs lo ((lo + hi) / 2) s,
            )
            | inr gt ↦ ground (
              arith,
              lt-position item x xs ((lo + hi) / 2) s e gt,
              insert_index-eq-position fuel item xs ((lo + hi) / 2 + 1) hi s,
            )
          ]
    ]

    -- Where `<` orders the scores and the array is sorted, the binary search of `_zsetInsert` puts the
    -- item where the linear search does: in front of the first item that is not before it.
    pub zset_insert-eq-insert_sorted :
        (xs : List (Item Score)) (item : Item Score)
        → IsSorted f xs
        → zset_insert f xs item ≡ insert_sorted item xs
    unfolding zset_insert
    zset_insert-eq-insert_sorted xs item s =
        ap (λ i. insert_at i item xs)
          (insert_index-eq-position (length xs) item xs 0 (length xs) s (omega arith)
            (position-le-length item xs) (omega arith) (omega arith))
        ∙ insert_at-position item xs

    AllBehind-trans :
        (y x : Item Score) (xs : List (Item Score))
        → item_le f y x ≡ true
        → AllBehind f x xs
        → AllBehind f y xs
    AllBehind-trans y x [] h b = tt
    AllBehind-trans y x (z ∷ xs) h b = (item_le_trans f o y x z h b.0, AllBehind-trans y x xs h b.1)

    AllBehind-insert_sorted :
        (y item : Item Score) (xs : List (Item Score))
        → item_le f y item ≡ true
        → AllBehind f y xs
        → AllBehind f y (insert_sorted item xs)
    unfolding insert_sorted
    AllBehind-insert_sorted y item [] h b = (h, tt)
    AllBehind-insert_sorted y item (x ∷ xs) h b = elim (Bool-cases (item_le f item x)) [
      | inl le ↦ rw le (h, b)
      | inr gt ↦ rw gt (b.0, AllBehind-insert_sorted y item xs h b.1)
    ]

    pub insert_sorted-IsSorted :
        (item : Item Score) (xs : List (Item Score))
        → IsSorted f xs
        → IsSorted f (insert_sorted item xs)
    unfolding insert_sorted
    insert_sorted-IsSorted item [] s = (tt, tt)
    insert_sorted-IsSorted item (x ∷ xs) s = elim (Bool-cases (item_le f item x)) [
      | inl le ↦ rw le ((le, AllBehind-trans item x xs le s.0), s)
      | inr gt ↦ rw gt (
        AllBehind-insert_sorted x item xs (item_le_total f o item x gt) s.0,
        insert_sorted-IsSorted item xs s.1,
      )
    ]
