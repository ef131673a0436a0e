-- ===== src/Tests/Data.antt =====
-- A store, numbers and an engine to run the commands on.
use redis_clone_js.Prelude.{ℕ, ◌+◌, refl, some, [], ◌∷◌, arith, ltb}
use redis_clone_js.Prelude.Text.{Text, text, text_eq}
use redis_clone_js.Prelude.Int.{pos, ◌+ℤ◌}
use redis_clone_js.Map
use redis_clone_js.Number.{Doubles, IsExact, Floats, IsOrdered, unsigned, show_ℕ, show_ℤ}
use redis_clone_js.Store.{Store, string, str, list, arr}
use redis_clone_js.Store.Consistent.{IsConsistent}
use redis_clone_js.Dispatch.{Engine}

-- Natural numbers serve as scores, and exact integers as doubles.
abbrev pub nat_floats : Floats ℕ
nat_floats = record {
  parse = unsigned;
  show = show_ℕ;
  add = λ a b. a + b;
  zero_score = 0;
  infinity = 1000000;
  minus_infinity = 0;
  lt = ltb;
}

pub nat_floats-IsOrdered : IsOrdered nat_floats
nat_floats-IsOrdered = record {
  lt_irrefl = λ a. ground arith;
  lt_trans = λ a b c h k. ground arith;
  eq_of_not_lt = λ a b h k. ground arith;
}

abbrev pub exact_doubles : Doubles
exact_doubles = record { to_number = λ n. n; add = λ a b. a +ℤ b; show = show_ℤ }

pub exact_doubles-IsExact : IsExact exact_doubles
exact_doubles-IsExact = record {
  to_number_safe = λ n h. refl;
  add_safe = λ a b h k l. refl;
  show_safe = λ n h. refl;
}

abbrev pub engine : Engine ℕ
engine = record {
  doubles = exact_doubles;
  floats = nat_floats;
  regex_test = λ source. some (text_eq source);
}

abbrev pub counter_key : Text
counter_key = text "c"

abbrev pub list_key : Text
list_key = text "l"

abbrev pub old_key : Text
old_key = text "o"

-- A counter that lives up to time 500, a list, and an entry that is due at time 50.
abbrev pub store : Store ℕ
store = record {
  kv =
      (counter_key, record { type = string; value = str (text "41") })
      ∷ (list_key, record { type = list; value = arr (text "x" ∷ text "y" ∷ []) })
      ∷ (old_key, record { type = string; value = str (text "v") })
      ∷ [];
  expires = (counter_key, pos 500) ∷ (old_key, pos 50) ∷ [];
  events = [];
}

pub store-IsConsistent : IsConsistent store
unfolding Map.has text_eq
store-IsConsistent = record {
  kv_unique = (refl, (refl, (refl, tt)));
  expires_unique = (refl, (refl, tt));
  deadline_has_entry = λ k h. ground arith;
}
