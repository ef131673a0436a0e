-- ===== src/Strings/Append.antt =====
-- APPEND, by what a client can see of the store.
use redis_clone_js.Prelude.{ℕ, ◌≡◌, refl, some, [], ◌∷◌, ◌++◌, arith, ◌∙◌}
use redis_clone_js.Prelude.Text.{Text}
use redis_clone_js.Prelude.Int.{pos}
use redis_clone_js.Cmd.{returns, modify, ◌>>=◌}
use redis_clone_js.Cmd.Runs.{bind-returns}
use redis_clone_js.Protocol.{encode_integer, utf8_length}
use redis_clone_js.Store.{
  Store, Entry, str, put, purge_if_expired, get_or_init_string, to_string, assign,
}
use redis_clone_js.Store.View.{view, view-put_live, purge_if_expired-SameView}
use redis_clone_js.Store.Looks.{get_or_init-found}
use redis_clone_js.Strings.{append}

module _ {Score : Type 0} where
  append-eq :
      (now : ℕ) (key v : Text) (e : Entry Score) (s : Store Score)
      → view now s key ≡ some e
      → append now (key ∷ v ∷ []) s ≡ (
        returns (encode_integer (pos (utf8_length (to_string e.value ++ v)))),
        put key (record e { value = str (to_string e.value ++ v) }) (purge_if_expired now key s),
      )
  unfolding append get_or_init_string ◌>>=◌ modify assign
  append-eq now key v e s there =
      bind-returns (get_or_init_string now key) _ (get_or_init-found _ e now key s there)

  -- APPEND to a key that shows an entry, of whatever type, leaves an entry of that type whose value
  -- is a string: the old value's text with the argument behind it, whose size is the reply.
  pub append-view :
      (now : ℕ) (key v : Text) (e : Entry Score) (s : Store Score)
      → view now s key ≡ some e
      → ((append now (key ∷ v ∷ []) s).0
          ≡ returns (encode_integer (pos (utf8_length (to_string e.value ++ v)))))
        × (view now (append now (key ∷ v ∷ []) s).1 key
            ≡ some (record e { value = str (to_string e.value ++ v) }))
  append-view now key v e s there = rw (append-eq now key v e s there) (
    refl,
    view-put_live now key e (record e { value = str (to_string e.value ++ v) })
        (purge_if_expired now key s)
        ((purge_if_expired-SameView now key s).views now key (omega arith) ∙ there),
  )
