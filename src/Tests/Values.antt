-- ===== src/Tests/Values.antt =====
-- The commands on strings, lists, hashes and sets.
use redis_clone_js.Prelude.{
  ◌+◌, ◌≡◌, refl, true, some, List, [], ◌∷◌, arith, length, leb, ◌&&◌, not, map, ℕ,
}
use redis_clone_js.Prelude.Text.{Text, text, text_eq}
use redis_clone_js.Prelude.Int.{pos, negsuc, ◌+ℤ◌}
use redis_clone_js.Map
use redis_clone_js.SetOf
use redis_clone_js.Number.{show_ℤ}
use redis_clone_js.Cmd.{returns}
use redis_clone_js.Protocol.{encode_integer, encode_bulk_string, encode_array_of_bulk_strings}
use redis_clone_js.Store.{Store, set, members, is_due, put, purge_if_expired}
use redis_clone_js.Store.View.{view, SameView}
use redis_clone_js.Keyspace.{string_entry}
use redis_clone_js.Strings.Counter.{incrby}
use redis_clone_js.Strings.Increment.{incrby-exact}
use redis_clone_js.Strings.Range.{slice_range}
use redis_clone_js.Strings.Positions.{at_positions, slice_range-eq-at_positions}
use redis_clone_js.Lists.{lpush, rpush, lpop, rpop, trimmed}
use redis_clone_js.Lists.Laws.{trimmed-eq-slice_range}
use redis_clone_js.Lists.Queue.{list_entry, rpop-rpush, lpop-lpush}
use redis_clone_js.Lists.Remove.{remove_items, occurrences}
use redis_clone_js.Lists.RemovedItems.{remove_items-eq-without}
use redis_clone_js.Hashes.{set_fields}
use redis_clone_js.Hashes.Fields.{last_value, get-set_fields, length-set_fields}
use redis_clone_js.Sets.Algebra.{in_all, intersection, sort_by_size, sdiff}
use redis_clone_js.Sets.Laws.{has-intersection_sorted}
use redis_clone_js.Sets.Looped.{in_any}
use redis_clone_js.Sets.Difference.{sdiff-members}
use redis_clone_js.Tests.Data.{exact_doubles, exact_doubles-IsExact, store, counter_key, list_key}

abbrev a : Text
a = text "a"

abbrev b : Text
b = text "b"

abbrev letters : List Text
letters = a ∷ b ∷ a ∷ text "c" ∷ []

abbrev pairs : List (Text × Text)
pairs = (a, text "1") ∷ (b, text "2") ∷ (a, text "3") ∷ []

abbrev hash : Map.Map Text
hash = (b, text "0") ∷ []

incrby-exact_example : incrby exact_doubles 100 (counter_key ∷ show_ℤ (negsuc 1) ∷ []) store ≡ (
  returns (encode_integer (pos 39)),
  put counter_key (string_entry (show_ℤ (pos 39))) (purge_if_expired 100 counter_key store),
)
unfolding ◌+ℤ◌
incrby-exact_example =
    incrby-exact exact_doubles exact_doubles-IsExact 100 counter_key (pos 41) (negsuc 1) store
      (unfold Map.get is_due text_eq show_ℤ in refl) (omega arith, omega arith)
      (omega arith, omega arith) (omega arith, omega arith)

list-shown : view 100 store list_key ≡ some (list_entry (text "x" ∷ text "y" ∷ []))
unfolding Map.get text_eq is_due
list-shown = refl

rpop-rpush_example :
    ((rpop 100 (list_key ∷ []) (rpush 100 (list_key ∷ a ∷ []) store).1).0
      ≡ returns (encode_bulk_string (some a)))
    × (view 100 (rpop 100 (list_key ∷ []) (rpush 100 (list_key ∷ a ∷ []) store).1).1 list_key
        ≡ some (list_entry (text "x" ∷ text "y" ∷ [])))
rpop-rpush_example = rpop-rpush 100 list_key a (text "x" ∷ text "y" ∷ []) store list-shown

lpop-lpush_example :
    ((lpop 100 (list_key ∷ []) (lpush 100 (list_key ∷ a ∷ []) store).1).0
      ≡ returns (encode_bulk_string (some a)))
    × (view 100 (lpop 100 (list_key ∷ []) (lpush 100 (list_key ∷ a ∷ []) store).1).1 list_key
        ≡ some (list_entry (text "x" ∷ text "y" ∷ [])))
lpop-lpush_example = lpop-lpush 100 list_key a (text "x" ∷ text "y" ∷ []) store list-shown

trimmed-eq-slice_range_example :
    trimmed (negsuc 2) (pos 9) letters ≡ slice_range (negsuc 2) (pos 9) letters
trimmed-eq-slice_range_example = trimmed-eq-slice_range (negsuc 2) (pos 9) letters

slice_range-eq-at_positions_example :
    slice_range (negsuc 2) (negsuc 0) letters
    ≡ at_positions (λ p. leb 4 (p + 3) && leb (p + 1) 4) 0 letters
slice_range-eq-at_positions_example = slice_range-eq-at_positions (negsuc 2) (negsuc 0) letters

remove_items-eq-without_example : remove_items (negsuc 0) a letters ≡ (a ∷ b ∷ text "c" ∷ [], 1)
unfolding occurrences text_eq
remove_items-eq-without_example = remove_items-eq-without (negsuc 0) a letters

get-set_fields_example : Map.get (set_fields pairs hash 0).0 a ≡ some (text "3")
unfolding last_value text_eq
get-set_fields_example = get-set_fields pairs hash 0 a

length-set_fields_example :
    length (set_fields pairs hash 0).0 + 0 ≡ length hash + (set_fields pairs hash 0).1
length-set_fields_example = length-set_fields pairs hash 0

has-intersection_sorted_example :
    SetOf.has (intersection (sort_by_size ((a ∷ b ∷ []) ∷ (b ∷ []) ∷ []))) b ≡ true
unfolding SetOf.has in_all text_eq
has-intersection_sorted_example = has-intersection_sorted (a ∷ b ∷ []) ((b ∷ []) ∷ []) b

-- Two sets, the second of them for ever, and one whose deadline has passed at time 100.
abbrev sets : Store ℕ
sets = record {
  kv =
      (text "p", record { type = set; value = members (a ∷ b ∷ text "c" ∷ []) })
      ∷ (text "q", record { type = set; value = members (b ∷ []) })
      ∷ (text "r", record { type = set; value = members (a ∷ []) })
      ∷ [];
  expires = (text "p", pos 500) ∷ (text "r", pos 50) ∷ [];
  events = [];
}

sdiff-members_example :
    (difference : List Text) × ((sdiff 100
        (text "p" ∷ text "q" ∷ text "r" ∷ text "none" ∷ [])
        sets).0
      ≡ returns (encode_array_of_bulk_strings (map some difference)))
    × ((v : Text)
        → SetOf.has difference v
          ≡ (SetOf.has (a ∷ b ∷ text "c" ∷ []) v && not (in_any ((b ∷ []) ∷ [] ∷ [] ∷ []) v)))
    × SameView 100 (sdiff 100 (text "p" ∷ text "q" ∷ text "r" ∷ text "none" ∷ []) sets).1 sets
sdiff-members_example =
    sdiff-members 100 (text "p") (text "q" ∷ text "r" ∷ text "none" ∷ []) (a ∷ b ∷ text "c" ∷ [])
      ((b ∷ []) ∷ [] ∷ [] ∷ []) sets (unfold Map.get text_eq is_due in refl)
      (unfold Map.get text_eq is_due in (refl, (refl, (refl, tt))))
