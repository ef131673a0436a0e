-- ===== src/Sets/Difference.antt =====
-- src/core/DataStore.js: SDIFF, by what a client can see of its keys.
use redis_clone_js.Prelude.{ℕ, ◌≡◌, refl, sym, subst, not, ◌&&◌, some, List, [], ◌∷◌, map, arith}
use redis_clone_js.Prelude.Text.{Text}
use redis_clone_js.SetOf
use redis_clone_js.Cmd.{returns, pure, ◌>>=◌}
use redis_clone_js.Cmd.Runs.{bind_assoc}
use redis_clone_js.Protocol.{encode_array_of_bulk_strings}
use redis_clone_js.Store.{Store, ensure_set, purge_if_expired}
use redis_clone_js.Store.View.{view, SameView}
use redis_clone_js.Sets.Algebra.{delete_all, next_set, subtract_keys, sdiff, members_reply}
use redis_clone_js.Sets.Laws.{has-delete_all}
use redis_clone_js.Sets.Looped.{
  in_any, ShowsSet, AllShowSets, Looped, Looped-done, Looped-next, AllShowSets-purged, Looped-reply,
}

module _ {Score : Type 0} where
  subtract_keys-Looped :
      (now : ℕ) (acc ks : List Text) (others : List (List Text)) (s : Store Score)
      → AllShowSets (view now s) ks others
      → Looped now (λ v. SetOf.has acc v && not (in_any others v)) s (subtract_keys now acc ks s)
  unfolding subtract_keys pure
  subtract_keys-Looped now acc [] [] s h = Looped-done now acc _ s (λ v. ground arith)
  subtract_keys-Looped now acc [] (l ∷ ls) s h = elim h [ ]
  subtract_keys-Looped now acc (k ∷ ks) [] s h = elim h [ ]
  subtract_keys-Looped now acc (k ∷ ks) (l ∷ ls) s h =
      Looped-next now k l (λ l. subtract_keys now (delete_all l acc) ks) _ _ s h.0
        (λ v. ground (arith, has-delete_all l acc v))
        (subtract_keys-Looped now (delete_all l acc) ks ls (purge_if_expired now k s)
          (AllShowSets-purged now k ks ls s h.1))

  -- SDIFF of keys that all show a set or nothing, which counts as the empty set, replies with exactly
  -- the members of the first set that none of the others has; and the client sees afterwards, at
  -- every later time, what it would have seen without the command.
  pub sdiff-members :
      (now : ℕ) (k : Text) (ks base : List Text) (others : List (List Text)) (s : Store Score)
      → ShowsSet (view now s k) base
      → AllShowSets (view now s) ks others
      → (difference : List Text) × ((sdiff now (k ∷ ks) s).0
          ≡ returns (encode_array_of_bulk_strings (map some difference)))
        × ((v : Text) → SetOf.has difference v ≡ (SetOf.has base v && not (in_any others v)))
        × SameView now (sdiff now (k ∷ ks) s).1 s
  unfolding sdiff
  sdiff-members now k ks base others s h hs =
      subst
        (λ x.
          (difference : List Text) × (x.0
            ≡ returns (encode_array_of_bulk_strings (map some difference)))
          × ((v : Text) → SetOf.has difference v ≡ (SetOf.has base v && not (in_any others v)))
          × SameView now x.1 s)
        (sym (
          bind_assoc (ensure_set now k) (λ e. next_set e (λ b. subtract_keys now b ks))
            members_reply s))
        (Looped-reply now (λ v. SetOf.has base v && not (in_any others v))
          (ensure_set now k >>= λ e. next_set e (λ b. subtract_keys now b ks)) s
          (Looped-next now k base (λ b. subtract_keys now b ks) _ _ s h (λ v. refl)
            (subtract_keys-Looped now base ks others (purge_if_expired now k s)
              (AllShowSets-purged now k ks others s hs))))
