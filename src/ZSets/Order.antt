-- ===== src/ZSets/Order.antt =====
-- The order of the array is total, and the array is sorted by it.
use redis_clone_js.Prelude.{
  ◌≡◌, true, false, not, ◌&&◌, ◌||◌, List, [], ◌∷◌, arith, ◌⊎◌, inl, inr, Bool-cases,
}
use redis_clone_js.Prelude.Text.{Text, text_lt, text_lt_irrefl, text_lt_trans, eq_of_not_text_lt}
use redis_clone_js.Number.{Floats, IsOrdered}
use redis_clone_js.Store.{Item}
use redis_clone_js.ZSets.{item_le}

module _ {Score : Type 0} (f : Floats Score) where
  -- Every item of the list stands behind `x` or beside it.
  abbrev pub AllBehind : Item Score → List (Item Score) → Type 0
  AllBehind x [] = Unit
  AllBehind x (y ∷ ys) = (item_le f x y ≡ true) × AllBehind x ys

  abbrev pub IsSorted : List (Item Score) → Type 0
  IsSorted [] = Unit
  IsSorted (x ∷ xs) = AllBehind x xs × IsSorted xs

  item_le-eq :
      (a b : Item Score)
      → item_le f a b ≡ (
          f.lt a.score b.score
          || (not (f.lt b.score a.score)
              && (text_lt a.member b.member || not (text_lt b.member a.member))))
  unfolding item_le
  item_le-eq a b = ground arith

  module _ (o : IsOrdered f) where
    -- In the order of scores, the negation is transitive.
    not_lt_trans : (a b c : Score) → f.lt b a ≡ false → f.lt c b ≡ false → f.lt c a ≡ false
    not_lt_trans a b c h k =
        ground (arith, o.lt_trans b c a, o.lt_trans c a b, o.eq_of_not_lt a b, o.eq_of_not_lt b c)

    not_text_lt_trans :
        (a b c : Text) → text_lt b a ≡ false → text_lt c b ≡ false → text_lt c a ≡ false
    not_text_lt_trans a b c h k = ground (
      arith,
      text_lt_trans b c a,
      text_lt_trans c a b,
      eq_of_not_text_lt a b,
      eq_of_not_text_lt b c,
    )

    pub item_le_total : (a b : Item Score) → item_le f a b ≡ false → item_le f b a ≡ true
    item_le_total a b h = ground (arith, item_le-eq a b, item_le-eq b a)

    item_le-score : (a b : Item Score) → item_le f a b ≡ true → f.lt b.score a.score ≡ false
    item_le-score a b h =
        ground (arith, item_le-eq a b, o.lt_irrefl a.score, o.lt_trans a.score b.score a.score)

    item_le-member :
        (a b : Item Score)
        → item_le f a b ≡ true
        → f.lt a.score b.score ≡ false
        → text_lt b.member a.member ≡ false
    item_le-member a b h k =
        ground
          (arith, item_le-eq a b, text_lt_irrefl a.member, text_lt_trans a.member b.member a.member)

    item_le-intro :
        (a b : Item Score)
        → f.lt b.score a.score ≡ false
        → (f.lt a.score b.score ≡ true) ⊎ (text_lt b.member a.member ≡ false)
        → item_le f a b ≡ true
    item_le-intro a b h (inl k) = ground (arith, item_le-eq a b)
    item_le-intro a b h (inr k) = ground (arith, item_le-eq a b)

    pub item_le_trans :
        (a b c : Item Score) → item_le f a b ≡ true → item_le f b c ≡ true → item_le f a c ≡ true
    item_le_trans a b c h k =
        let ba = item_le-score a b h in
        let cb = item_le-score b c k in
        item_le-intro a c (not_lt_trans a.score b.score c.score ba cb)
          (elim (Bool-cases (f.lt a.score c.score)) [
            | inl less ↦ inl less
            | inr same ↦ inr (
                not_text_lt_trans a.member b.member c.member
                  (item_le-member a b h (not_lt_trans b.score c.score a.score cb same))
                  (item_le-member b c k (not_lt_trans c.score a.score b.score same ba)))
          ])
