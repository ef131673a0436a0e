-- ===== src/Keyspace/Consistent.antt =====
-- The keyspace commands keep the invariant of the two maps.
use redis_clone_js.Prelude.{ℕ, Bool, true, false, Option, none, some, List, [], ◌∷◌}
use redis_clone_js.Prelude.Text.{Text}
use redis_clone_js.Prelude.Int.{ℤ}
use redis_clone_js.Map
use redis_clone_js.Cmd.{pure, modify, ◌>>=◌}
use redis_clone_js.Cmd.Keeps.{Keeps, Keeps-modify, Keeps-bind, Keeps-gets, Keeps-pure}
use redis_clone_js.Store.{Store, Entry, put, set_expiry, clear_expiry}
use redis_clone_js.Store.Consistent.{
  IsConsistent, put-IsConsistent, put-set_expiry-IsConsistent, clear_expiry-IsConsistent,
  remove-IsConsistent, purge_if_expired-Keeps, consistent_rules,
}
use redis_clone_js.Keyspace.{
  string_entry, store_deadline, set_entry, set_checked, set, get, del_keys, del, count_existing,
  exists, matching_keys, live_keys, keys, flush, type, dbsize, move_entry, rename, renamenx,
}
use redis_clone_js.Keyspace.Options.{
  SetOptions, SetArgs, accepted, rejected, set_options, no_options,
}
use redis_clone_js.Protocol.{encode_error}

module _ {Score : Type 0} where
  set_entry-IsConsistent :
      (key value : Text) (o : SetOptions) (s : Store Score)
      → IsConsistent s
      → IsConsistent (set_entry key value o s)
  unfolding set_entry
  set_entry-IsConsistent key value o s c = go o.expire_at o.keep_ttl
    where
      go :
          (at : Option ℤ) (keep : Bool)
          → IsConsistent (
              store_deadline key
                (record o { expire_at = at; keep_ttl = keep })
                (put key (string_entry value) s))
      go (some exp) keep = put-set_expiry-IsConsistent key (string_entry value) exp s c
      go none true = put-IsConsistent key (string_entry value) s c
      go none false =
          clear_expiry-IsConsistent key _ (put-IsConsistent key (string_entry value) s c)

  set_entry-Keeps :
      (key value : Text) (o : SetOptions)
      → Keeps (IsConsistent {Score = Score}) (modify (set_entry key value o))
  set_entry-Keeps key value o =
      Keeps-modify (set_entry key value o) (set_entry-IsConsistent key value o)

  set_checked-Keeps :
      (now : ℕ) (key value : Text) (o : SetOptions)
      → Keeps (IsConsistent {Score = Score}) (set_checked now key value o)
  unfolding set_checked
  set_checked-Keeps now key value o = search (consistent_rules, set_entry-Keeps) depth 9

  set_args-Keeps :
      (now : ℕ) (key value : Text) (a : SetArgs)
      → Keeps (IsConsistent {Score = Score}) (elim a [
        | SetArgs.rejected message ↦ pure (encode_error message)
        | SetArgs.accepted o ↦ set_checked now key value o
      ])
  set_args-Keeps now key value (accepted o) = set_checked-Keeps now key value o
  set_args-Keeps now key value (rejected m) = search consistent_rules

  pub set-Keeps : (now : ℕ) (args : List Text) → Keeps (IsConsistent {Score = Score}) (set now args)
  unfolding set
  set-Keeps now (key ∷ value ∷ opts) =
      set_args-Keeps now key value (set_options now no_options opts)
  set-Keeps now _ = search consistent_rules

  pub get-Keeps : (now : ℕ) (args : List Text) → Keeps (IsConsistent {Score = Score}) (get now args)
  unfolding get
  get-Keeps now (key ∷ []) = search consistent_rules
  get-Keeps now _ = search consistent_rules

  del_keys-Keeps :
      (now n : ℕ) (ks : List Text) → Keeps (IsConsistent {Score = Score}) (del_keys now n ks)
  unfolding del_keys
  del_keys-Keeps now n [] = search consistent_rules
  del_keys-Keeps now n (k ∷ ks) =
      search (consistent_rules, λ (m : ℕ). del_keys-Keeps now m ks) depth 9

  pub del-Keeps : (now : ℕ) (args : List Text) → Keeps (IsConsistent {Score = Score}) (del now args)
  unfolding del
  del-Keeps now [] = search consistent_rules
  del-Keeps now (k ∷ ks) = search (consistent_rules, del_keys-Keeps)

  count_existing-Keeps :
      (now n : ℕ) (ks : List Text) → Keeps (IsConsistent {Score = Score}) (count_existing now n ks)
  unfolding count_existing
  count_existing-Keeps now n [] = search consistent_rules
  count_existing-Keeps now n (k ∷ ks) =
      search (consistent_rules, λ (m : ℕ). count_existing-Keeps now m ks)

  pub exists-Keeps :
      (now : ℕ) (args : List Text) → Keeps (IsConsistent {Score = Score}) (exists now args)
  unfolding exists
  exists-Keeps now [] = search consistent_rules
  exists-Keeps now (k ∷ ks) = search (consistent_rules, count_existing-Keeps)

  matching_keys-Keeps :
      (matches : Text → Bool) (now : ℕ) (ks : List Text)
      → Keeps (IsConsistent {Score = Score}) (matching_keys matches now ks)
  unfolding matching_keys
  matching_keys-Keeps matches now [] = search consistent_rules
  matching_keys-Keeps matches now (k ∷ ks) = Keeps-bind _ _ (purge_if_expired-Keeps now k) (λ _.
      Keeps-bind _ _ (Keeps-gets _)
        (λ present. Keeps-bind _ _ (matching_keys-Keeps matches now ks) (λ out. Keeps-pure _)))

  live_keys-Keeps :
      (matches : Text → Bool) (now : ℕ)
      → Keeps (IsConsistent {Score = Score}) (live_keys matches now)
  unfolding live_keys
  live_keys-Keeps matches now = search (consistent_rules, matching_keys-Keeps)

  pub keys-Keeps :
      (regex_test : Text → Option (Text → Bool)) (now : ℕ) (args : List Text)
      → Keeps (IsConsistent {Score = Score}) (keys regex_test now args)
  unfolding keys
  keys-Keeps regex_test now (p ∷ []) = search (consistent_rules, live_keys-Keeps)
  keys-Keeps regex_test now _ = search consistent_rules

  pub flush-Keeps : (args : List Text) → Keeps (IsConsistent {Score = Score}) (flush args)
  unfolding flush ◌>>=◌ modify Map.has
  flush-Keeps [] = record {
    at = λ s c. record { kv_unique = tt; expires_unique = tt; deadline_has_entry = λ k h. cc };
  }
  flush-Keeps (_ ∷ _) = search consistent_rules

  pub type-Keeps :
      (now : ℕ) (args : List Text) → Keeps (IsConsistent {Score = Score}) (type now args)
  unfolding type
  type-Keeps now (key ∷ []) = search consistent_rules
  type-Keeps now _ = search consistent_rules

  pub dbsize-Keeps :
      (now : ℕ) (args : List Text) → Keeps (IsConsistent {Score = Score}) (dbsize now args)
  unfolding dbsize
  dbsize-Keeps now [] = search (consistent_rules, live_keys-Keeps)
  dbsize-Keeps now (_ ∷ _) = search consistent_rules

  move_entry-IsConsistent :
      (src dst : Text) (e : Entry Score) (s : Store Score)
      → IsConsistent s
      → IsConsistent (move_entry src dst e s)
  unfolding move_entry
  move_entry-IsConsistent src dst e s c = remove-IsConsistent src _ (go (Map.get s.expires src))
    where
      go :
          (o : Option ℤ)
          → IsConsistent (elim o [
            | Option.some ttl ↦ set_expiry dst ttl (put dst e s)
            | Option.none ↦ clear_expiry dst (put dst e s)
          ])
      go (some ttl) = put-set_expiry-IsConsistent dst e ttl s c
      go none = clear_expiry-IsConsistent dst _ (put-IsConsistent dst e s c)

  move_entry-Keeps :
      (src dst : Text) (e : Entry Score) → Keeps IsConsistent (modify (move_entry src dst e))
  move_entry-Keeps src dst e =
      Keeps-modify (move_entry src dst e) (move_entry-IsConsistent src dst e)

  pub rename-Keeps :
      (now : ℕ) (args : List Text) → Keeps (IsConsistent {Score = Score}) (rename now args)
  unfolding rename
  rename-Keeps now (src ∷ dst ∷ []) = search (consistent_rules, move_entry-Keeps) depth 8
  rename-Keeps now _ = search consistent_rules

  pub renamenx-Keeps :
      (now : ℕ) (args : List Text) → Keeps (IsConsistent {Score = Score}) (renamenx now args)
  unfolding renamenx
  renamenx-Keeps now (src ∷ dst ∷ []) = search (consistent_rules, move_entry-Keeps) depth 9
  renamenx-Keeps now _ = search consistent_rules
