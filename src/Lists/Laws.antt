-- ===== src/Lists/Laws.antt =====
-- LTRIM against LRANGE, and the two ends of a list.
use redis_clone_js.Prelude.{
  ℕ, ◌+◌, ◌≡◌, refl, some, List, [], ◌∷◌, ◌++◌, arith, if◌then◌else◌, length,
}
use redis_clone_js.Prelude.Text.{Text}
use redis_clone_js.Prelude.Int.{ℤ, pos, negsuc, ◌-ℤ◌, ltb_ℤ, pos_part}
use redis_clone_js.Strings.Range.{
  from_end, start_index, end_index, slice, slice_between, slice_range,
}
use redis_clone_js.Lists.{trimmed, pop}

-- The two ways to cut the last index: LTRIM keeps a negative one, and LRANGE makes it -1.
abbrev cut : ℕ → ℤ → ℤ
cut len i = if ltb_ℤ (pos len -ℤ pos 1) i then pos len -ℤ pos 1 else i

slice_between-cut :
    (first : ℕ) (i : ℤ) (l : List Text)
    → (if ltb_ℤ (cut (length l) i) (pos first)
        then []
        else slice first (pos_part (cut (length l) i) + 1) l)
      ≡ slice_between first (cut (length l) (if ltb_ℤ i (pos 0) then negsuc 0 else i)) l
unfolding slice_between ◌-ℤ◌
slice_between-cut first (pos n) l = ground arith
slice_between-cut first (negsuc n) l = ground arith

-- LTRIM leaves exactly what LRANGE shows for the same two indices.
pub trimmed-eq-slice_range :
    (start end : ℤ) (l : List Text) → trimmed start end l ≡ slice_range start end l
unfolding trimmed slice_range end_index
trimmed-eq-slice_range start end l =
    slice_between-cut (start_index (length l) start) (from_end (length l) end) l

pub pop-append : (l : List Text) (v : Text) → pop (l ++ v ∷ []) ≡ some (v, l)
unfolding pop
pop-append [] v = refl
pop-append (x ∷ l) v = rw (pop-append l v, pop) refl
