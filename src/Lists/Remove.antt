-- ===== src/Lists/Remove.antt =====
-- src/core/DataStore.js: the three loops of LREM.
use redis_clone_js.Prelude.{
  ℕ, zero, suc, ◌+◌, ◌-◌, ◌≡◌, refl, Bool, ◌&&◌, List, [], ◌∷◌, arith, length, ltb, min,
  if◌then◌else◌,
}
use redis_clone_js.Prelude.Text.{Text, text_eq}
use redis_clone_js.Prelude.Int.{ℤ, pos, negsuc}

-- How often `target` stands in a list.
unfoldable pub occurrences : Text → List Text → ℕ
occurrences target [] = 0
occurrences target (v ∷ l) = (if text_eq v target then 1 else 0) + occurrences target l

-- count === 0: value.filter((v) => v !== target)
unfoldable pub remove_every : Text → List Text → List Text
remove_every target [] = []
remove_every target (v ∷ l) =
    let rest = remove_every target l in if text_eq v target then rest else v ∷ rest

-- count > 0: from the head, while fewer than `count` are removed. The number of removals left
-- is the first argument.
unfoldable pub remove_from_head : ℕ → Text → List Text → List Text
remove_from_head zero target l = l
remove_from_head (suc n) target [] = []
remove_from_head (suc n) target (v ∷ l) = elim (text_eq v target) [
  | Bool.true ↦ remove_from_head n target l
  | Bool.false ↦ v ∷ remove_from_head (suc n) target l
]

-- count < 0: from the tail; what stands behind an element is visited before it, and the number
-- that was removed there comes back beside the list.
unfoldable pub remove_from_tail : ℕ → Text → List Text → List Text × ℕ
remove_from_tail n target [] = ([], 0)
remove_from_tail n target (v ∷ l) =
    let (rest, removed) = remove_from_tail n target l in
    if ltb removed n && text_eq v target then (rest, removed + 1) else (v ∷ rest, removed)

-- The new list and the number of removals.
unfoldable pub remove_items : ℤ → Text → List Text → List Text × ℕ
unfolding remove_every remove_from_head remove_from_tail
remove_items (pos zero) target l =
    let rest = remove_every target l in (rest, length l - length rest)
remove_items (pos (suc n)) target l =
    let rest = remove_from_head (suc n) target l in (rest, length l - length rest)
remove_items (negsuc n) target l = remove_from_tail (suc n) target l

-- The most that a count lets LREM remove.
abbrev pub removable : ℤ → ℕ → ℕ
removable (pos zero) found = found
removable (pos (suc n)) found = min (suc n) found
removable (negsuc n) found = min (suc n) found

length-remove_every :
    (target : Text) (l : List Text)
    → length (remove_every target l) + occurrences target l ≡ length l
unfolding remove_every occurrences
length-remove_every target [] = omega arith
length-remove_every target (v ∷ l) = ground (arith, length-remove_every target l)

length-remove_from_head :
    (n : ℕ) (target : Text) (l : List Text)
    → length (remove_from_head n target l) + min n (occurrences target l) ≡ length l
unfolding remove_from_head occurrences
length-remove_from_head zero target l = omega arith
length-remove_from_head (suc n) target [] = omega arith
length-remove_from_head (suc n) target (v ∷ l) =
    ground (arith, length-remove_from_head n target l, length-remove_from_head (suc n) target l)

pub remove_from_tail_lem :
    (n : ℕ) (target : Text) (l : List Text)
    → ((remove_from_tail n target l).1 ≡ min n (occurrences target l))
      × (length (remove_from_tail n target l).0 + (remove_from_tail n target l).1 ≡ length l)
unfolding remove_from_tail occurrences
remove_from_tail_lem n target [] = (omega arith, omega arith)
remove_from_tail_lem n target (v ∷ l) =
    let (a, b) = remove_from_tail_lem n target l in (ground (arith, a, b), ground (arith, a, b))

-- LREM replies with the number of occurrences, cut at the magnitude of a count that is not 0, and
-- the list is shorter by exactly that number.
pub remove_items-removes :
    (count : ℤ) (target : Text) (l : List Text)
    → ((remove_items count target l).1 ≡ removable count (occurrences target l))
      × (length (remove_items count target l).0 + (remove_items count target l).1 ≡ length l)
unfolding remove_items
remove_items-removes (pos zero) target l =
    (omega (arith, length-remove_every target l), omega (arith, length-remove_every target l))
remove_items-removes (pos (suc n)) target l = (
  omega (arith, length-remove_from_head (suc n) target l),
  omega (arith, length-remove_from_head (suc n) target l),
)
remove_items-removes (negsuc n) target l = remove_from_tail_lem (suc n) target l

occurrences-remove_every :
    (target : Text) (l : List Text) → occurrences target (remove_every target l) ≡ 0
unfolding occurrences remove_every
occurrences-remove_every target [] = refl
occurrences-remove_every target (v ∷ l) = ground (arith, occurrences-remove_every target l)
