-- ===== src/Store/Consistent.antt =====
-- The invariant of the two maps: no key stands twice, and only present keys have a deadline.
use redis_clone_js.Prelude.{ℕ, ◌≡◌, true, Option, none, some, arith, Bool-cases, inl, inr}
use redis_clone_js.Prelude.Text.{Text, text_eq_iff}
use redis_clone_js.Prelude.Int.{ℤ}
use redis_clone_js.Map
use redis_clone_js.Map.{Unique}
use redis_clone_js.Map.Laws.{has-set, has-delete, set-Unique, delete-Unique}
use redis_clone_js.Cmd.{modify}
use redis_clone_js.Cmd.Keeps.{
  Keeps, Keeps-pure, Keeps-raise, Keeps-with_state, Keeps-modify, Keeps-bind, keeps_rules,
}
use redis_clone_js.Store.{
  string, to_string, Entry, EntryType, Value, Store, Ensured, missing, other_type, found, Handler,
  is_due, remove, put, set_expiry, clear_expiry, purge_if_expired, lookup_entry, get_entry,
  or_unmodelled, or_throws, classify, ensure, ensured, init_entry, get_or_init, assign, init,
  ensure_string, get_or_init_string, ensure_list, get_or_init_list, ensure_hash, get_or_init_hash,
  ensure_set, get_or_init_set, ensure_zset, get_or_init_zset,
}

pub record IsConsistent {Score : Type 0} (s : Store Score) : Type 0 where
  pub kv_unique : Unique s.kv
  pub expires_unique : Unique s.expires
  pub deadline_has_entry : (k : Text) → Map.has s.expires k ≡ true → Map.has s.kv k ≡ true

module _ {Score : Type 0} where
  pub init-IsConsistent : IsConsistent (init {Score = Score})
  unfolding Map.has
  init-IsConsistent = record { kv_unique = tt; expires_unique = tt; deadline_has_entry = λ k h. cc }

  pub put-IsConsistent :
      (key : Text) (e : Entry Score) (s : Store Score) → IsConsistent s → IsConsistent (put key e s)
  unfolding put
  put-IsConsistent key e s c = record {
    kv_unique = set-Unique s.kv key e c.kv_unique;
    expires_unique = c.expires_unique;
    deadline_has_entry = λ k h. ground (arith, has-set s.kv key k e, c.deadline_has_entry k);
  }

  pub remove-IsConsistent :
      (key : Text) (s : Store Score) → IsConsistent s → IsConsistent (remove key s)
  unfolding remove
  remove-IsConsistent key s c = record {
    kv_unique = delete-Unique s.kv key c.kv_unique;
    expires_unique = delete-Unique s.expires key c.expires_unique;
    deadline_has_entry = λ k h.
        ground (arith, has-delete s.kv key k, has-delete s.expires key k, c.deadline_has_entry k);
  }

  pub clear_expiry-IsConsistent :
      (key : Text) (s : Store Score) → IsConsistent s → IsConsistent (clear_expiry key s)
  unfolding clear_expiry
  clear_expiry-IsConsistent key s c = record {
    kv_unique = c.kv_unique;
    expires_unique = delete-Unique s.expires key c.expires_unique;
    deadline_has_entry = λ k h. ground (arith, has-delete s.expires key k, c.deadline_has_entry k);
  }

  -- A deadline may be given to a key that is present.
  pub set_expiry-IsConsistent :
      (key : Text) (exp : ℤ) (s : Store Score)
      → Map.has s.kv key ≡ true
      → IsConsistent s
      → IsConsistent (set_expiry key exp s)
  unfolding set_expiry
  set_expiry-IsConsistent key exp s present c = record {
    kv_unique = c.kv_unique;
    expires_unique = set-Unique s.expires key exp c.expires_unique;
    deadline_has_entry = λ k h.
        ground (arith, has-set s.expires key k exp, text_eq_iff key k, c.deadline_has_entry k);
  }

  pub purge_if_expired-IsConsistent :
      (now : ℕ) (key : Text) (s : Store Score)
      → IsConsistent s
      → IsConsistent (purge_if_expired now key s)
  unfolding purge_if_expired
  purge_if_expired-IsConsistent now key s c =
      elim (Bool-cases (is_due now (Map.get s.expires key))) [
        | inl due ↦ rw due (remove-IsConsistent key s c)
        | inr live ↦ rw live c
      ]

  -- `put` followed by a deadline.
  pub put-set_expiry-IsConsistent :
      (key : Text) (e : Entry Score) (exp : ℤ) (s : Store Score)
      → IsConsistent s
      → IsConsistent (set_expiry key exp (put key e s))
  put-set_expiry-IsConsistent key e exp s c =
      set_expiry-IsConsistent key exp (put key e s)
        (unfold put in ground (arith, has-set s.kv key key e, text_eq_iff key key))
        (put-IsConsistent key e s c)

  pub get_entry-Keeps :
      (now : ℕ) (key : Text) → Keeps (IsConsistent {Score = Score}) (get_entry now key)
  unfolding get_entry
  get_entry-Keeps now key =
      Keeps-with_state (lookup_entry now key)
        (λ s c. unfold lookup_entry in purge_if_expired-IsConsistent now key s c)

  pub put-Keeps : (key : Text) (e : Entry Score) → Keeps IsConsistent (modify (put key e))
  put-Keeps key e = Keeps-modify (put key e) (put-IsConsistent key e)

  pub remove-Keeps : (key : Text) → Keeps (IsConsistent {Score = Score}) (modify (remove key))
  remove-Keeps key = Keeps-modify (remove key) (remove-IsConsistent key)

  pub clear_expiry-Keeps :
      (key : Text) → Keeps (IsConsistent {Score = Score}) (modify (clear_expiry key))
  clear_expiry-Keeps key = Keeps-modify (clear_expiry key) (clear_expiry-IsConsistent key)

  pub purge_if_expired-Keeps :
      (now : ℕ) (key : Text)
      → Keeps (IsConsistent {Score = Score}) (modify (purge_if_expired now key))
  purge_if_expired-Keeps now key =
      Keeps-modify (purge_if_expired now key) (purge_if_expired-IsConsistent now key)

  pub assign-Keeps :
      (key : Text) (e : Entry Score) (v : Value Score)
      → Keeps IsConsistent (modify (assign key e v))
  unfolding assign
  assign-Keeps key e v =
      Keeps-modify (assign key e v) (put-IsConsistent key (record e { value = v }))

  or_unmodelled-Keeps :
      {A : Type 0} (o : Option A) → Keeps (IsConsistent {Score = Score}) (or_unmodelled o)
  unfolding or_unmodelled
  or_unmodelled-Keeps none = search keeps_rules
  or_unmodelled-Keeps (some a) = search keeps_rules

  pub or_throws-Keeps :
      {A : Type 0} (o : Option A) → Keeps (IsConsistent {Score = Score}) (or_throws o)
  unfolding or_throws
  or_throws-Keeps none = search keeps_rules
  or_throws-Keeps (some a) = search keeps_rules

  classify-Keeps :
      {A : Type 0} (type : EntryType) (as_kind : Value Score → Option A) (o : Option (Entry Score))
      → Keeps IsConsistent (classify type as_kind o)
  unfolding classify
  classify-Keeps type as_kind none = search keeps_rules
  classify-Keeps type as_kind (some e) = search (keeps_rules, or_unmodelled-Keeps)

  pub ensure-Keeps :
      {A : Type 0} (type : EntryType) (as_kind : Value Score → Option A) (now : ℕ) (key : Text)
      → Keeps IsConsistent (ensure type as_kind now key)
  unfolding ensure
  ensure-Keeps type as_kind now key = search (keeps_rules, get_entry-Keeps, classify-Keeps)

  pub ensured-Keeps :
      {A : Type 0} (e : Ensured A) (absent : Handler Score) (present : A → Handler Score)
      → Keeps IsConsistent absent
      → ((a : A) → Keeps IsConsistent (present a))
      → Keeps IsConsistent (ensured e absent present)
  unfolding ensured
  ensured-Keeps missing absent present ka kp = ka
  ensured-Keeps other_type absent present ka kp = search keeps_rules
  ensured-Keeps (found a) absent present ka kp = kp a

  init_entry-Keeps :
      (key : Text) (fresh : Entry Score) (o : Option (Entry Score))
      → Keeps IsConsistent (init_entry key fresh o)
  unfolding init_entry
  init_entry-Keeps key fresh none = search (keeps_rules, put-Keeps)
  init_entry-Keeps key fresh (some e) = search keeps_rules

  pub get_or_init-Keeps :
      (fresh : Entry Score) (now : ℕ) (key : Text) → Keeps IsConsistent (get_or_init fresh now key)
  unfolding get_or_init
  get_or_init-Keeps fresh now key = search (keeps_rules, get_entry-Keeps, init_entry-Keeps)

module _ {Score : Type 0} (now : ℕ) (key : Text) where
  pub ensure_string-Keeps : Keeps (IsConsistent {Score = Score}) (ensure_string now key)
  unfolding ensure_string
  ensure_string-Keeps = ensure-Keeps string (λ v. some (to_string v)) now key

  pub get_or_init_string-Keeps : Keeps (IsConsistent {Score = Score}) (get_or_init_string now key)
  unfolding get_or_init_string
  get_or_init_string-Keeps = get_or_init-Keeps _ now key

  pub ensure_list-Keeps : Keeps (IsConsistent {Score = Score}) (ensure_list now key)
  unfolding ensure_list
  ensure_list-Keeps = ensure-Keeps _ _ now key

  pub get_or_init_list-Keeps : Keeps (IsConsistent {Score = Score}) (get_or_init_list now key)
  unfolding get_or_init_list
  get_or_init_list-Keeps = get_or_init-Keeps _ now key

  pub ensure_hash-Keeps : Keeps (IsConsistent {Score = Score}) (ensure_hash now key)
  unfolding ensure_hash
  ensure_hash-Keeps = ensure-Keeps _ _ now key

  pub get_or_init_hash-Keeps : Keeps (IsConsistent {Score = Score}) (get_or_init_hash now key)
  unfolding get_or_init_hash
  get_or_init_hash-Keeps = get_or_init-Keeps _ now key

  pub ensure_set-Keeps : Keeps (IsConsistent {Score = Score}) (ensure_set now key)
  unfolding ensure_set
  ensure_set-Keeps = ensure-Keeps _ _ now key

  pub get_or_init_set-Keeps : Keeps (IsConsistent {Score = Score}) (get_or_init_set now key)
  unfolding get_or_init_set
  get_or_init_set-Keeps = get_or_init-Keeps _ now key

  pub ensure_zset-Keeps : Keeps (IsConsistent {Score = Score}) (ensure_zset now key)
  unfolding ensure_zset
  ensure_zset-Keeps = ensure-Keeps _ _ now key

  pub get_or_init_zset-Keeps : Keeps (IsConsistent {Score = Score}) (get_or_init_zset now key)
  unfolding get_or_init_zset
  get_or_init_zset-Keeps = get_or_init-Keeps _ now key

pub ruleset consistent_rules = (
  keeps_rules, get_entry-Keeps, put-Keeps, remove-Keeps, clear_expiry-Keeps, purge_if_expired-Keeps,
  assign-Keeps, or_throws-Keeps, ensured-Keeps, ensure_string-Keeps, ensure_list-Keeps,
  ensure_hash-Keeps, ensure_set-Keeps, ensure_zset-Keeps, get_or_init_string-Keeps,
  get_or_init_list-Keeps, get_or_init_hash-Keeps, get_or_init_set-Keeps, get_or_init_zset-Keeps,
)
