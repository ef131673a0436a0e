-- ===== src/Server/Flush.antt =====
-- src/server/Server.js: FLUSHDB, by the keys of the databases.
use redis_clone_js.Prelude.{
  ℕ, ◌≡◌, ◌≢◌, refl, ap, sym, ◌∙◌, subst, true, false, ◌&&◌, none, List, [], ◌∷◌, ◌++◌, arith, ◌==◌,
  if◌then◌else◌, Bool-cases, inl, inr,
}
use redis_clone_js.Prelude.Text.{Text, text_eq_iff}
use redis_clone_js.Map
use redis_clone_js.Map.{Map}
use redis_clone_js.Map.Laws.{get-delete, has-eq-get}
use redis_clone_js.SetOf
use redis_clone_js.Store.{Store, Entry, remove}
use redis_clone_js.Server.Databases.{db_prefix}
use redis_clone_js.Server.Apart.{db_prefix-apart}
use redis_clone_js.Server.Session.{Env, Server, Conn}
use redis_clone_js.Server.Handler.{starts_with, keys_of_db, remove_all, flushdb}

starts_with-append : (prefix k : Text) → starts_with prefix (prefix ++ k) ≡ true
unfolding starts_with
starts_with-append [] k = refl
starts_with-append (c ∷ prefix) k = ground (arith, starts_with-append prefix k)

starts_with_inv : (prefix t : Text) → starts_with prefix t ≡ true → (k : Text) × (t ≡ prefix ++ k)
unfolding starts_with
starts_with_inv [] t h = (t, refl)
starts_with_inv (c ∷ prefix) [] h = absurd (cc)
starts_with_inv (c ∷ prefix) (d ∷ t) h =
    let (k, e) = starts_with_inv prefix t (ground arith) in
    let same : c ≡ d = ground arith in (k, cc)

-- A key of another database does not have the prefix.
other_database : (i j : ℕ) (k : Text) → i ≢ j → starts_with (db_prefix i) (db_prefix j ++ k) ≡ false
other_database i j k h = elim (Bool-cases (starts_with (db_prefix i) (db_prefix j ++ k))) [
  | inl found ↦
      let (k', e) = starts_with_inv (db_prefix i) (db_prefix j ++ k) found in
      absurd (h (sym ((db_prefix-apart j i k k' e).0)))
  | inr none_found ↦ none_found
]

module _ {Score : Type 0} where
  has-keys_of_db :
      (prefix : Text) (kv : Map (Entry Score)) (k : Text)
      → SetOf.has (keys_of_db prefix kv) k ≡ (starts_with prefix k && Map.has kv k)
  unfolding keys_of_db SetOf.has Map.has
  has-keys_of_db prefix [] k = ground arith
  has-keys_of_db prefix ((key, entry) ∷ kv) k = ground (
    arith,
    has-keys_of_db prefix kv k,
    text_eq_iff key k,
    ap (starts_with prefix) {x = key} {y = k},
  )

  get-remove_all :
      (keys : List Text) (st : Store Score) (k : Text)
      → Map.get (remove_all keys st).kv k ≡ (if SetOf.has keys k then none else Map.get st.kv k)
  unfolding remove SetOf.has
  get-remove_all [] st k = refl
  get-remove_all (key ∷ keys) st k =
      ground (arith, get-remove_all keys (remove key st) k, get-delete st.kv key k)

  -- After FLUSHDB a key of the database of the connection is not stored, and every key of any other
  -- database is stored as it was, whatever the keys hold.
  pub flushdb-get :
      (env : Env Score) (now j : ℕ) (conn : Conn) (s : Server Score) (k : Text)
      → Map.get ((flushdb env now conn s).1).store.kv (db_prefix j ++ k)
        ≡ (if conn.db == j then none else Map.get s.store.kv (db_prefix j ++ k))
  unfolding flushdb
  flushdb-get env now j conn s k =
      let key = db_prefix j ++ k in
      get-remove_all (keys_of_db (db_prefix conn.db) s.store.kv) s.store key
      ∙ ground (
        arith,
        has-keys_of_db (db_prefix conn.db) s.store.kv key,
        other_database conn.db j k,
        own,
        has-eq-get s.store.kv key,
      )
    where
      own : (e : conn.db ≡ j) → starts_with (db_prefix conn.db) (db_prefix j ++ k) ≡ true
      own e =
          subst (λ i. starts_with (db_prefix i) (db_prefix j ++ k) ≡ true) (sym e)
            (starts_with-append (db_prefix j) k)
