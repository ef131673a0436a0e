-- ===== src/Lists/RemovedItems.antt =====
-- src/core/DataStore.js: LREM, against a description of which elements go.
use redis_clone_js.Prelude.{
  ℕ, zero, suc, ◌+◌, ◌-◌, ◌≡◌, refl, Bool, true, List, [], ◌∷◌, arith, ltb, if◌then◌else◌,
}
use redis_clone_js.Prelude.Text.{Text, text_eq}
use redis_clone_js.Prelude.Int.{ℤ, pos, negsuc}
use redis_clone_js.Lists.Remove.{
  occurrences, remove_every, remove_from_head, remove_from_tail, remove_items, removable,
  remove_items-removes, remove_from_tail_lem,
}

-- Whether an occurrence of the target goes, by the number of occurrences before it and behind it.
abbrev pub goes : ℤ → ℕ → ℕ → Bool
goes (pos zero) before behind = true
goes (pos (suc n)) before behind = ltb before (suc n)
goes (negsuc n) before behind = ltb behind (suc n)

-- The list without the occurrences that go; `before` of them stand in front of it.
abbrev pub without : (ℕ → ℕ → Bool) → Text → ℕ → List Text → List Text
without gone target before [] = []
without gone target before (v ∷ l) =
    if text_eq v target
    then (if gone before (occurrences target l)
        then without gone target (before + 1) l
        else v ∷ without gone target (before + 1) l)
    else v ∷ without gone target before l

remove_every-eq-without :
    (target : Text) (before : ℕ) (l : List Text)
    → remove_every target l ≡ without (goes (pos zero)) target before l
unfolding remove_every
remove_every-eq-without target before [] = refl
remove_every-eq-without target before (v ∷ l) =
    ground (
      arith,
      remove_every-eq-without target before l,
      remove_every-eq-without target (before + 1) l,
    )

all_stay :
    (n before : ℕ) (target : Text) (l : List Text)
    → suc n - before ≡ 0
    → without (goes (pos (suc n))) target before l ≡ l
all_stay n before target [] h = refl
all_stay n before target (v ∷ l) h =
    ground (arith, all_stay n before target l, all_stay n (before + 1) target l)

-- `m` removals are left of `n` in all.
remove_from_head-eq-without :
    (n m before : ℕ) (target : Text) (l : List Text)
    → m ≡ suc n - before
    → remove_from_head m target l ≡ without (goes (pos (suc n))) target before l
unfolding remove_from_head
remove_from_head-eq-without n zero before target [] h = refl
remove_from_head-eq-without n (suc m) before target [] h = refl
remove_from_head-eq-without n zero before target (v ∷ l) h =
    ground (arith, all_stay n before target l, all_stay n (before + 1) target l)
remove_from_head-eq-without n (suc m) before target (v ∷ l) h = ground (
  arith,
  remove_from_head-eq-without n m (before + 1) target l,
  remove_from_head-eq-without n (suc m) before target l,
)

remove_from_tail-eq-without :
    (n before : ℕ) (target : Text) (l : List Text)
    → (remove_from_tail (suc n) target l).0 ≡ without (goes (negsuc n)) target before l
unfolding remove_from_tail
remove_from_tail-eq-without n before target [] = refl
remove_from_tail-eq-without n before target (v ∷ l) = ground (
  arith,
  remove_from_tail-eq-without n before target l,
  remove_from_tail-eq-without n (before + 1) target l,
  (remove_from_tail_lem (suc n) target l).0,
)

-- LREM takes away exactly the occurrences of its target that the count asks for: all of them for 0,
-- the first n for n, the last n for -n; the other elements stay, in their order. The number beside
-- the list is that of the occurrences, cut at the magnitude of a count that is not 0.
pub remove_items-eq-without :
    (count : ℤ) (target : Text) (l : List Text)
    → remove_items count target l
      ≡ (without (goes count) target 0 l, removable count (occurrences target l))
unfolding remove_items
remove_items-eq-without (pos zero) target l =
    cc (remove_every-eq-without target 0 l, (remove_items-removes (pos zero) target l).0)
remove_items-eq-without (pos (suc n)) target l = cc (
  remove_from_head-eq-without n (suc n) 0 target l (omega arith),
  (remove_items-removes (pos (suc n)) target l).0,
)
remove_items-eq-without (negsuc n) target l =
    cc (remove_from_tail-eq-without n 0 target l, (remove_items-removes (negsuc n) target l).0)
