-- ===== src/Lists/Queue.antt =====
-- The pushes and pops of a list, command by command.
use redis_clone_js.Prelude.{ℕ, ◌≡◌, refl, some, List, [], ◌∷◌, ◌++◌, length, arith, ◌∙◌}
use redis_clone_js.Prelude.Text.{Text}
use redis_clone_js.Prelude.Int.{pos}
use redis_clone_js.Cmd.{returns, modify, ◌>>=◌}
use redis_clone_js.Cmd.Runs.{bind-returns}
use redis_clone_js.Protocol.{encode_integer, encode_bulk_string}
use redis_clone_js.Store.{
  Store, Entry, arr, list, as_arr, put, purge_if_expired, or_throws, assign, ensure_list,
  get_or_init_list, ensured,
}
use redis_clone_js.Store.View.{view, view-put_live, purge_if_expired-SameView}
use redis_clone_js.Store.Looks.{ensure-found, get_or_init-found}
use redis_clone_js.Lists.{lpush, rpush, lpop, rpop, pop, pop_reply, shift, unshift_all, write_list}
use redis_clone_js.Lists.Laws.{pop-append}

module _ {Score : Type 0} where
  abbrev pub list_entry : List Text → Entry Score
  list_entry l = record { type = list; value = arr l }

  -- What a push to a list that the client sees does.
  rpush-eq :
      (now : ℕ) (key v : Text) (vs l : List Text) (s : Store Score)
      → view now s key ≡ some (list_entry l)
      → rpush now (key ∷ v ∷ vs) s ≡ (
        returns (encode_integer (pos (length (l ++ v ∷ vs)))),
        put key (list_entry (l ++ v ∷ vs)) (purge_if_expired now key s),
      )
  unfolding rpush get_or_init_list or_throws ◌>>=◌ modify assign
  rpush-eq now key v vs l s there =
      bind-returns (get_or_init_list now key) _ (get_or_init-found _ (list_entry l) now key s there)

  lpush-eq :
      (now : ℕ) (key v : Text) (vs l : List Text) (s : Store Score)
      → view now s key ≡ some (list_entry l)
      → lpush now (key ∷ v ∷ vs) s ≡ (
        returns (encode_integer (pos (length (unshift_all (v ∷ vs) l)))),
        put key (list_entry (unshift_all (v ∷ vs) l)) (purge_if_expired now key s),
      )
  unfolding lpush get_or_init_list or_throws ◌>>=◌ modify assign
  lpush-eq now key v vs l s there =
      bind-returns (get_or_init_list now key) _ (get_or_init-found _ (list_entry l) now key s there)

  rpop-eq :
      (now : ℕ) (key : Text) (l : List Text) (s : Store Score)
      → view now s key ≡ some (list_entry l)
      → rpop now (key ∷ []) s ≡ pop_reply key (pop l) (purge_if_expired now key s)
  unfolding rpop ensure_list ensured
  rpop-eq now key l s there =
      bind-returns (ensure_list now key) _ (ensure-found list as_arr now key s (arr l) l there refl)

  lpop-eq :
      (now : ℕ) (key : Text) (l : List Text) (s : Store Score)
      → view now s key ≡ some (list_entry l)
      → lpop now (key ∷ []) s ≡ pop_reply key (shift l) (purge_if_expired now key s)
  unfolding lpop ensure_list ensured
  lpop-eq now key l s there =
      bind-returns (ensure_list now key) _ (ensure-found list as_arr now key s (arr l) l there refl)

  pop_reply-eq :
      (key v : Text) (rest : List Text) (s : Store Score)
      → pop_reply key (some (v, rest)) s
        ≡ (returns (encode_bulk_string (some v)), put key (list_entry rest) s)
  unfolding pop_reply write_list ◌>>=◌ modify
  pop_reply-eq key v rest s = refl

  pub view-purged :
      (now : ℕ) (key : Text) (e : Entry Score) (s : Store Score)
      → view now s key ≡ some e
      → view now (purge_if_expired now key s) key ≡ some e
  view-purged now key e s there =
      (purge_if_expired-SameView now key s).views now key (omega arith) ∙ there

  -- The store that a push leaves shows the longer list, and a pop from it shows the rest.
  pub view-pushed :
      (now : ℕ) (key : Text) (l l' : List Text) (s : Store Score)
      → view now s key ≡ some (list_entry l)
      → view now (put key (list_entry l') (purge_if_expired now key s)) key ≡ some (list_entry l')
  view-pushed now key l l' s there =
      view-put_live now key (list_entry l) (list_entry l') (purge_if_expired now key s)
        (view-purged now key (list_entry l) s there)

  -- On a list that the client sees, RPUSH of one value and then RPOP gives the value back and shows
  -- the old list again.
  pub rpop-rpush :
      (now : ℕ) (key v : Text) (l : List Text) (s : Store Score)
      → view now s key ≡ some (list_entry l)
      → ((rpop now (key ∷ []) (rpush now (key ∷ v ∷ []) s).1).0
          ≡ returns (encode_bulk_string (some v)))
        × (view now (rpop now (key ∷ []) (rpush now (key ∷ v ∷ []) s).1).1 key
            ≡ some (list_entry l))
  rpop-rpush now key v l s there =
      let s' = put key (list_entry (l ++ v ∷ [])) (purge_if_expired now key s) in
      let pushed = view-pushed now key l (l ++ v ∷ []) s there in
      rw (rpush-eq now key v [] l s there) (
        rw (rpop-eq now key (l ++ v ∷ []) s' pushed) (
          rw (pop-append l v) (
            rw (pop_reply-eq key v l (purge_if_expired now key s'))
              (refl, view-pushed now key (l ++ v ∷ []) l s' pushed))))

  -- On a list that the client sees, LPUSH of one value and then LPOP gives the value back and shows
  -- the old list again.
  pub lpop-lpush :
      (now : ℕ) (key v : Text) (l : List Text) (s : Store Score)
      → view now s key ≡ some (list_entry l)
      → ((lpop now (key ∷ []) (lpush now (key ∷ v ∷ []) s).1).0
          ≡ returns (encode_bulk_string (some v)))
        × (view now (lpop now (key ∷ []) (lpush now (key ∷ v ∷ []) s).1).1 key
            ≡ some (list_entry l))
  unfolding unshift_all
  lpop-lpush now key v l s there =
      let s' = put key (list_entry (v ∷ l)) (purge_if_expired now key s) in
      let pushed = view-pushed now key l (v ∷ l) s there in
      rw (lpush-eq now key v [] l s there) (
        rw (lpop-eq now key (v ∷ l) s' pushed) (
          rw (pop_reply-eq key v l (purge_if_expired now key s'))
            (refl, view-pushed now key (v ∷ l) l s' pushed)))
