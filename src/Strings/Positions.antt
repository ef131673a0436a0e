-- ===== src/Strings/Positions.antt =====
-- src/core/DataStore.js: what GETRANGE and LRANGE show, by the positions of the elements.
use redis_clone_js.Prelude.{
  ℕ, zero, suc, ◌+◌, ◌-◌, ◌≤◌, ◌<◌, ◌≡◌, refl, ◌∙◌, sym, Bool, not, ◌&&◌, List, [], ◌∷◌, arith,
  length, take, drop, ltb, leb, if◌then◌else◌,
}
use redis_clone_js.Prelude.Int.{ℤ, pos, negsuc, ◌+ℤ◌, ◌-ℤ◌, ltb_ℤ}
use redis_clone_js.Strings.Range.{
  from_end, start_index, end_index, slice, slice_between, slice_range,
}

-- Position `p` of `len` is not before the index, or not behind it; index -1 is the last position.
abbrev pub not_before : ℕ → ℤ → ℕ → Bool
not_before len (pos start) p = leb start p
not_before len (negsuc k) p = leb len (p + suc k)

abbrev pub not_behind : ℕ → ℤ → ℕ → Bool
not_behind len (pos end) p = leb p end
not_behind len (negsuc k) p = leb (p + suc k) len

not_before-start_index :
    (len p : ℕ) (start : ℤ) → not_before len start p ≡ leb (start_index len start) p
unfolding start_index from_end ◌+ℤ◌
not_before-start_index len p (pos n) = ground arith
not_before-start_index len p (negsuc n) = ground arith

not_behind-end_index :
    (len p : ℕ) (end : ℤ) → p < len → not_behind len end p ≡ not (ltb_ℤ (end_index len end) (pos p))
unfolding end_index from_end ◌+ℤ◌ ◌-ℤ◌
not_behind-end_index len p (pos n) h = ground arith
not_behind-end_index len p (negsuc n) h = ground arith

module _ {A : Type 0} where
  -- The elements whose positions pass a test; the first one stands at position `p`.
  abbrev pub at_positions : (ℕ → Bool) → ℕ → List A → List A
  at_positions test p [] = []
  at_positions test p (x ∷ xs) =
      let rest = at_positions test (p + 1) xs in if test p then x ∷ rest else rest

  take-nil : (n : ℕ) → Path (List A) (take n []) []
  take-nil zero = refl
  take-nil (suc n) = refl

  drop-past : (n : ℕ) (xs : List A) → length xs ≤ n → drop n xs ≡ []
  drop-past zero [] h = refl
  drop-past zero (x ∷ xs) h = absurd (omega arith)
  drop-past (suc n) [] h = refl
  drop-past (suc n) (x ∷ xs) h = drop-past n xs (omega arith)

  -- From `from` on, the elements before `to`: there are `n` of them.
  at_positions-take :
      (from to p n : ℕ) (xs : List A)
      → from ≤ p
      → n ≡ to - p
      → at_positions (λ q. leb from q && ltb q to) p xs ≡ take n xs
  at_positions-take from to p zero [] h e = refl
  at_positions-take from to p (suc n) [] h e = refl
  at_positions-take from to p zero (x ∷ xs) h e =
      ground (arith, at_positions-take from to (p + 1) zero xs)
  at_positions-take from to p (suc n) (x ∷ xs) h e =
      ground (arith, at_positions-take from to (p + 1) n xs)

  at_positions-slice :
      (from to p d : ℕ) (xs : List A)
      → from ≡ p + d
      → at_positions (λ q. leb from q && ltb q to) p xs ≡ take (to - from) (drop d xs)
  at_positions-slice from to p zero xs e =
      ground (arith, at_positions-take from to p (to - from) xs)
  at_positions-slice from to p (suc d) [] e = sym (take-nil (to - from))
  at_positions-slice from to p (suc d) (x ∷ xs) e =
      ground (arith, at_positions-slice from to (p + 1) d xs)

  -- The test matters only on positions of the list.
  at_positions-ap :
      (test other : ℕ → Bool) (p : ℕ) (xs : List A)
      → ((q : ℕ) → q < p + length xs → test q ≡ other q)
      → at_positions test p xs ≡ at_positions other p xs
  at_positions-ap test other p [] h = refl
  at_positions-ap test other p (x ∷ xs) h =
      ground
        (arith, h p (omega arith), at_positions-ap test other (p + 1) xs (λ q k. h q (omega arith)))

  slice_between-eq-at_positions :
      (first : ℕ) (last : ℤ) (xs : List A)
      → at_positions (λ q. leb first q && not (ltb_ℤ last (pos q))) 0 xs
        ≡ slice_between first last xs
  unfolding slice_between slice ◌-ℤ◌
  slice_between-eq-at_positions first (negsuc k) xs =
      at_positions-ap (λ q. leb first q && not (ltb_ℤ (negsuc k) (pos q))) (λ q. leb 1 q && ltb q 0)
        0 xs (λ q h. ground arith)
      ∙ at_positions-slice 1 0 0 1 xs refl
      ∙ ground arith
  slice_between-eq-at_positions first (pos n) xs =
      at_positions-ap (λ q. leb first q && not (ltb_ℤ (pos n) (pos q)))
        (λ q. leb first q && ltb q (n + 1)) 0 xs (λ q h. ground arith)
      ∙ at_positions-slice first (n + 1) 0 first xs (omega arith)
      ∙ ground (arith, drop-past first xs, take-nil (n + 1 - first))

  -- What GETRANGE and LRANGE show of a list are the elements at the positions from the start index to
  -- the end index, in their order; an index below zero counts from the end, -1 being the last
  -- position, and positions that the list does not have are left out.
  pub slice_range-eq-at_positions :
      (start end : ℤ) (xs : List A)
      → slice_range start end xs
        ≡ at_positions (λ p. not_before (length xs) start p && not_behind (length xs) end p) 0 xs
  unfolding slice_range
  slice_range-eq-at_positions start end xs = sym (
      at_positions-ap _ _ 0 xs (λ p h. cc (
        not_before-start_index (length xs) p start,
        not_behind-end_index (length xs) p end (omega (arith, h)),
      ))
      ∙ slice_between-eq-at_positions (start_index (length xs) start) (end_index (length xs) end)
          xs)
