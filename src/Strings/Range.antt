-- ===== src/Strings/Range.antt =====
-- src/core/DataStore.js: the index arithmetic of GETRANGE, LRANGE and LTRIM, over any array.
use redis_clone_js.Prelude.{ℕ, ◌+◌, ◌-◌, List, [], length, take, drop, if◌then◌else◌}
use redis_clone_js.Prelude.Int.{ℤ, pos, negsuc, pos_part, ◌+ℤ◌, ◌-ℤ◌, ltb_ℤ}

-- A negative index counts from the end.
unfoldable pub from_end : ℕ → ℤ → ℤ
from_end len i = if ltb_ℤ i (pos 0) then pos len +ℤ i else i

-- if (start < 0) start = len + start; if (start < 0) start = 0;
unfoldable pub start_index : ℕ → ℤ → ℕ
unfolding from_end
start_index len start = let i = from_end len start in if ltb_ℤ i (pos 0) then 0 else pos_part i

-- if (end < 0) end = len + end; if (end < 0) end = -1; if (end > len - 1) end = len - 1;
unfoldable pub end_index : ℕ → ℤ → ℤ
unfolding from_end
end_index len end =
    let i = from_end len end in
    let e : ℤ = if ltb_ℤ i (pos 0) then negsuc 0 else i in
    if ltb_ℤ (pos len -ℤ pos 1) e then pos len -ℤ pos 1 else e

module _ {A : Type 0} where
  -- a.slice(from, to)
  unfoldable pub slice : ℕ → ℕ → List A → List A
  slice from to xs = take (to - from) (drop from xs)

  -- if (start > len - 1) return []; if (end < start) return []; slice(start, end + 1)
  unfoldable pub slice_between : ℕ → ℤ → List A → List A
  unfolding slice
  slice_between first last xs =
      if ltb_ℤ (pos (length xs) -ℤ pos 1) (pos first)
      then []
      else if ltb_ℤ last (pos first)
      then []
      else slice first (pos_part last + 1) xs

  unfoldable pub slice_range : ℤ → ℤ → List A → List A
  unfolding start_index end_index slice_between
  slice_range start end xs =
      slice_between (start_index (length xs) start) (end_index (length xs) end) xs
