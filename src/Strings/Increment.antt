-- ===== src/Strings/Increment.antt =====
-- INCRBY on a string that shows a safe integer.
use redis_clone_js.Prelude.{ℕ, ◌≡◌, refl, some, [], ◌∷◌, ◌∙◌}
use redis_clone_js.Prelude.Text.{Text}
use redis_clone_js.Prelude.Int.{ℤ, pos, negsuc, ◌+ℤ◌}
use redis_clone_js.Number.{show_ℤ, show_ℕ, Doubles, IsSafe, IsExact}
use redis_clone_js.Number.Decimal.{show_ℕ-StartsWithDigit, StartsWithDigit}
use redis_clone_js.Cmd.{returns, given, modify, ◌>>=◌}
use redis_clone_js.Cmd.Runs.{bind-returns}
use redis_clone_js.Protocol.{encode_integer}
use redis_clone_js.Store.{Store, put, purge_if_expired, assign, get_or_init_string, to_string}
use redis_clone_js.Store.View.{view}
use redis_clone_js.Store.Looks.{get_or_init-found}
use redis_clone_js.Keyspace.{string_entry}
use redis_clone_js.Strings.Counter.{
  current, add_to_entry, apply_incr_by, incrby, parse_integer_strict,
}
use redis_clone_js.Strings.Exact.{parse_integer_strict-show_ℤ, sum_in_range}

current-digit :
    (d : Doubles) (s : Text) → StartsWithDigit s → current d s ≡ parse_integer_strict d s
unfolding current
current-digit d [] h = elim h [ ]
current-digit d (c ∷ s) h = refl

current-show_ℤ : (d : Doubles) (n : ℤ) → IsExact d → IsSafe n → current d (show_ℤ n) ≡ some n
current-show_ℤ d (pos n) exact safe =
    unfold show_ℤ in
    current-digit d (show_ℕ n) (show_ℕ-StartsWithDigit n)
    ∙ parse_integer_strict-show_ℤ d (pos n) exact safe
current-show_ℤ d (negsuc n) exact safe =
    unfold show_ℤ current in parse_integer_strict-show_ℤ d (negsuc n) exact safe

module _ {Score : Type 0} (d : Doubles) (exact : IsExact d) where
  add_to_entry-exact :
      (key : Text) (n m : ℤ) (s : Store Score)
      → IsSafe n
      → IsSafe m
      → IsSafe (n +ℤ m)
      → add_to_entry d key m (string_entry (show_ℤ n)) s
        ≡ (returns (encode_integer (n +ℤ m)), put key (string_entry (show_ℤ (n +ℤ m))) s)
  unfolding add_to_entry to_string ◌>>=◌ modify given assign encode_integer
  add_to_entry-exact key n m s hn hm hs = rw (current-show_ℤ d n exact hn) (
      rw (exact.add_safe n m hn hm hs)
        (rw (sum_in_range (n +ℤ m) hs) (rw (exact.show_safe (n +ℤ m) hs) refl)))

  -- INCRBY of a safe integer on a key that shows a safe integer replies with their sum and stores it,
  -- when the sum is safe.
  pub incrby-exact :
      (now : ℕ) (key : Text) (n m : ℤ) (s : Store Score)
      → view now s key ≡ some (string_entry (show_ℤ n))
      → IsSafe n
      → IsSafe m
      → IsSafe (n +ℤ m)
      → incrby d now (key ∷ show_ℤ m ∷ []) s ≡ (
        returns (encode_integer (n +ℤ m)),
        put key (string_entry (show_ℤ (n +ℤ m))) (purge_if_expired now key s),
      )
  unfolding incrby apply_incr_by get_or_init_string given
  incrby-exact now key n m s there hn hm hs = rw (parse_integer_strict-show_ℤ d m exact hm) (
      bind-returns (get_or_init_string now key) (add_to_entry d key m)
        (get_or_init-found _ (string_entry (show_ℤ n)) now key s there)
      ∙ add_to_entry-exact key n m (purge_if_expired now key s) hn hm hs)
