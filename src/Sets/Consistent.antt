-- ===== src/Sets/Consistent.antt =====
-- The set commands keep the invariant of the two maps.
use redis_clone_js.Prelude.{ℕ, Option, List, [], ◌∷◌}
use redis_clone_js.Prelude.Text.{Text}
use redis_clone_js.Cmd.{Cmd, modify}
use redis_clone_js.Cmd.Keeps.{Keeps, Keeps-modify, Keeps-bind, Keeps-pure, Keeps-given}
use redis_clone_js.Store.{Store, Entry, Value, fields, members, Ensured, missing, other_type, found}
use redis_clone_js.Store.Consistent.{
  IsConsistent, put-IsConsistent, ensure_set-Keeps, consistent_rules,
}
use redis_clone_js.Sets.{
  write_set, add_to_entry, sadd, srem, sismember, smismember, smembers, scard, move_member, smove,
}
use redis_clone_js.Sets.Algebra.{
  next_set, collect_sets, union_keys, add_all, subtract_keys, delete_all, sinter, sunion, sdiff,
  store_result, sunionstore, sinterstore, sdiffstore,
}

module _ {Score : Type 0} where
  write_set-Keeps :
      (key : Text) (l : List Text) → Keeps (IsConsistent {Score = Score}) (modify (write_set key l))
  unfolding write_set
  write_set-Keeps key l = Keeps-modify (write_set key l) (put-IsConsistent key _)

ruleset set_rules = (consistent_rules, write_set-Keeps)

module _ {Score : Type 0} (now : ℕ) where
  add_to_entry-Keeps :
      (key : Text) (e : Entry Score) (ms : List Text) (v : Value Score)
      → Keeps IsConsistent (add_to_entry key e ms v)
  unfolding add_to_entry
  add_to_entry-Keeps key e ms (members l) = search set_rules
  add_to_entry-Keeps key e ms (fields m) = search set_rules
  add_to_entry-Keeps key e ms _ = search set_rules

  pub sadd-Keeps : (args : List Text) → Keeps (IsConsistent {Score = Score}) (sadd now args)
  unfolding sadd
  sadd-Keeps (key ∷ m ∷ ms) = search (set_rules, add_to_entry-Keeps)
  sadd-Keeps _ = search set_rules

  pub srem-Keeps : (args : List Text) → Keeps (IsConsistent {Score = Score}) (srem now args)
  unfolding srem
  srem-Keeps (key ∷ m ∷ ms) = search set_rules
  srem-Keeps _ = search set_rules

  pub sismember-Keeps :
      (args : List Text) → Keeps (IsConsistent {Score = Score}) (sismember now args)
  unfolding sismember
  sismember-Keeps (key ∷ m ∷ []) = search set_rules
  sismember-Keeps _ = search set_rules

  pub smismember-Keeps :
      (args : List Text) → Keeps (IsConsistent {Score = Score}) (smismember now args)
  unfolding smismember
  smismember-Keeps (key ∷ m ∷ ms) = search set_rules
  smismember-Keeps _ = search set_rules

  pub smembers-Keeps : (args : List Text) → Keeps (IsConsistent {Score = Score}) (smembers now args)
  unfolding smembers
  smembers-Keeps (key ∷ []) = search set_rules
  smembers-Keeps _ = search set_rules

  pub scard-Keeps : (args : List Text) → Keeps (IsConsistent {Score = Score}) (scard now args)
  unfolding scard
  scard-Keeps (key ∷ []) = search set_rules
  scard-Keeps _ = search set_rules

  move_member-Keeps :
      (src dst m : Text) (l : List Text)
      → Keeps (IsConsistent {Score = Score}) (move_member src dst m l)
  unfolding move_member
  move_member-Keeps src dst m l = search set_rules depth 9

  pub smove-Keeps : (args : List Text) → Keeps (IsConsistent {Score = Score}) (smove now args)
  unfolding smove
  smove-Keeps (src ∷ dst ∷ m ∷ []) = search (set_rules, move_member-Keeps) depth 8
  smove-Keeps _ = search set_rules

  next_set-Keeps :
      {A : Type 0} (e : Ensured (List Text)) (go_on : List Text → Cmd (Store Score) (Option A))
      → ((l : List Text) → Keeps IsConsistent (go_on l))
      → Keeps IsConsistent (next_set e go_on)
  unfolding next_set
  next_set-Keeps missing go_on k = k []
  next_set-Keeps other_type go_on k = search set_rules
  next_set-Keeps (found l) go_on k = k l

  collect_sets-Keeps : (ks : List Text) → Keeps (IsConsistent {Score = Score}) (collect_sets now ks)
  unfolding collect_sets
  collect_sets-Keeps [] = search set_rules
  collect_sets-Keeps (k ∷ ks) = Keeps-bind _ _ (ensure_set-Keeps now k) (λ e.
      next_set-Keeps e _ (λ l.
        Keeps-bind _ _ (collect_sets-Keeps ks)
          (λ rest. Keeps-given rest _ _ (Keeps-pure _) (λ ls. Keeps-pure _))))

  union_keys-Keeps :
      (acc ks : List Text) → Keeps (IsConsistent {Score = Score}) (union_keys now acc ks)
  unfolding union_keys
  union_keys-Keeps acc [] = search set_rules
  union_keys-Keeps acc (k ∷ ks) =
      Keeps-bind _ _ (ensure_set-Keeps now k)
        (λ e. next_set-Keeps e _ (λ l. union_keys-Keeps (add_all l acc) ks))

  subtract_keys-Keeps :
      (acc ks : List Text) → Keeps (IsConsistent {Score = Score}) (subtract_keys now acc ks)
  unfolding subtract_keys
  subtract_keys-Keeps acc [] = search set_rules
  subtract_keys-Keeps acc (k ∷ ks) =
      Keeps-bind _ _ (ensure_set-Keeps now k)
        (λ e. next_set-Keeps e _ (λ l. subtract_keys-Keeps (delete_all l acc) ks))

  store_result-Keeps :
      (dest : Text) (e : Entry Score) (l : List Text) → Keeps IsConsistent (store_result dest e l)
  unfolding store_result
  store_result-Keeps dest e l = search set_rules

ruleset algebra_rules = (
  set_rules, next_set-Keeps, collect_sets-Keeps, union_keys-Keeps, subtract_keys-Keeps,
  store_result-Keeps,
)

module _ {Score : Type 0} (now : ℕ) where
  pub sinter-Keeps : (args : List Text) → Keeps (IsConsistent {Score = Score}) (sinter now args)
  unfolding sinter
  sinter-Keeps keys = search algebra_rules

  pub sunion-Keeps : (args : List Text) → Keeps (IsConsistent {Score = Score}) (sunion now args)
  unfolding sunion
  sunion-Keeps keys = search algebra_rules

  pub sdiff-Keeps : (args : List Text) → Keeps (IsConsistent {Score = Score}) (sdiff now args)
  unfolding sdiff
  sdiff-Keeps [] = search set_rules
  sdiff-Keeps (k ∷ ks) = search (algebra_rules, next_set-Keeps now) depth 8

  pub sunionstore-Keeps :
      (args : List Text) → Keeps (IsConsistent {Score = Score}) (sunionstore now args)
  unfolding sunionstore
  sunionstore-Keeps (dest ∷ k ∷ ks) = search (algebra_rules, store_result-Keeps now) depth 8
  sunionstore-Keeps _ = search set_rules

  pub sinterstore-Keeps :
      (args : List Text) → Keeps (IsConsistent {Score = Score}) (sinterstore now args)
  unfolding sinterstore
  sinterstore-Keeps (dest ∷ k ∷ ks) = search (algebra_rules, store_result-Keeps now) depth 8
  sinterstore-Keeps _ = search set_rules

  pub sdiffstore-Keeps :
      (args : List Text) → Keeps (IsConsistent {Score = Score}) (sdiffstore now args)
  unfolding sdiffstore
  sdiffstore-Keeps (dest ∷ k ∷ ks) =
      search (algebra_rules, next_set-Keeps now, store_result-Keeps now) depth 9
  sdiffstore-Keeps _ = search set_rules
