-- ===== src/Keyspace/Views.antt =====
-- GET, by what a client can see of the store.
use redis_clone_js.Prelude.{ℕ, ◌≡◌, refl, Option, none, some, [], ◌∷◌, arith, if◌then◌else◌, ◌∙◌}
use redis_clone_js.Prelude.Text.{Text, text}
use redis_clone_js.Cmd.Runs.{bind-eq}
use redis_clone_js.Cmd.{returns, ◌>>=◌}
use redis_clone_js.Protocol.{encode_bulk_string, encode_error}
use redis_clone_js.Store.{
  Store, Entry, string, same_type, to_string, purge_if_expired, ensure_string, ensured,
  or_unmodelled, classify, reply,
}
use redis_clone_js.Store.View.{view}
use redis_clone_js.Store.Looks.{ensure-eq}
use redis_clone_js.Keyspace.{get, null}

module _ {Score : Type 0} where
  abbrev pub get_reply : Option (Entry Score) → Text
  get_reply none = encode_bulk_string none
  get_reply (some e) =
      if same_type e.type string
      then encode_bulk_string (some (to_string e.value))
      else encode_error (text "WRONGTYPE Operation against a key holding the wrong kind of value")

  classify_get-eq :
      (o : Option (Entry Score)) (s : Store Score)
      → (classify string (λ v. some (to_string v)) o >>= λ entry.
            ensured entry null (λ value. reply (encode_bulk_string (some value))))
          s
        ≡ (returns (get_reply o), s)
  unfolding ◌>>=◌ ensured classify or_unmodelled
  classify_get-eq none s = refl
  classify_get-eq (some e) s = ground arith

  -- GET replies by what the client sees of its key, on every branch.
  pub get-eq-view :
      (now : ℕ) (key : Text) (s : Store Score)
      → get now (key ∷ []) s ≡ (returns (get_reply (view now s key)), purge_if_expired now key s)
  unfolding get ensure_string
  get-eq-view now key s =
      bind-eq _ (classify string (λ v. some (to_string v)) (view now s key)) _
        (ensure-eq string (λ v. some (to_string v)) now key s)
      ∙ classify_get-eq (view now s key) (purge_if_expired now key s)
