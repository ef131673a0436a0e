-- ===== src/Lists/Consistent.antt =====
-- The list commands keep the invariant of the two maps.
use redis_clone_js.Prelude.{ℕ, Bool, Option, none, some, List, [], ◌∷◌}
use redis_clone_js.Prelude.Text.{Text}
use redis_clone_js.Prelude.Int.{ℤ}
use redis_clone_js.Cmd.{modify}
use redis_clone_js.Cmd.Keeps.{Keeps, Keeps-modify}
use redis_clone_js.Store.Consistent.{IsConsistent, put-IsConsistent, consistent_rules}
use redis_clone_js.Lists.{
  write_list, pop_reply, lpush, rpush, lpop, rpop, lrange_reply, lrange, lindex, lset, llen, ltrim,
}
use redis_clone_js.Lists.Moves.{
  lrem, push_to, transfer, rpoplpush, lmove, take_value, lpop_value, rpop_value,
}

module _ {Score : Type 0} where
  write_list-Keeps :
      (key : Text) (l : List Text)
      → Keeps (IsConsistent {Score = Score}) (modify (write_list key l))
  unfolding write_list
  write_list-Keeps key l = Keeps-modify (write_list key l) (put-IsConsistent key _)

ruleset list_rules = (consistent_rules, write_list-Keeps)

module _ {Score : Type 0} (now : ℕ) where
  pub lpush-Keeps : (args : List Text) → Keeps (IsConsistent {Score = Score}) (lpush now args)
  unfolding lpush
  lpush-Keeps (key ∷ v ∷ values) = search list_rules
  lpush-Keeps _ = search list_rules

  pub rpush-Keeps : (args : List Text) → Keeps (IsConsistent {Score = Score}) (rpush now args)
  unfolding rpush
  rpush-Keeps (key ∷ v ∷ values) = search list_rules
  rpush-Keeps _ = search list_rules

  pop_reply-Keeps :
      (key : Text) (o : Option (Text × List Text))
      → Keeps (IsConsistent {Score = Score}) (pop_reply key o)
  unfolding pop_reply
  pop_reply-Keeps key none = search list_rules
  pop_reply-Keeps key (some (v, rest)) = search list_rules

  pub lpop-Keeps : (args : List Text) → Keeps (IsConsistent {Score = Score}) (lpop now args)
  unfolding lpop
  lpop-Keeps (key ∷ []) = search (list_rules, pop_reply-Keeps)
  lpop-Keeps _ = search list_rules

  pub rpop-Keeps : (args : List Text) → Keeps (IsConsistent {Score = Score}) (rpop now args)
  unfolding rpop
  rpop-Keeps (key ∷ []) = search (list_rules, pop_reply-Keeps)
  rpop-Keeps _ = search list_rules

  lrange_reply-Keeps :
      (l : List Text) (a b : Option ℤ) → Keeps (IsConsistent {Score = Score}) (lrange_reply l a b)
  unfolding lrange_reply
  lrange_reply-Keeps l (some a) (some b) = search list_rules
  lrange_reply-Keeps l _ _ = search list_rules

  pub lrange-Keeps : (args : List Text) → Keeps (IsConsistent {Score = Score}) (lrange now args)
  unfolding lrange
  lrange-Keeps (key ∷ a ∷ b ∷ []) = search (list_rules, lrange_reply-Keeps)
  lrange-Keeps _ = search list_rules

  pub lindex-Keeps : (args : List Text) → Keeps (IsConsistent {Score = Score}) (lindex now args)
  unfolding lindex
  lindex-Keeps (key ∷ i ∷ []) = search list_rules depth 8
  lindex-Keeps _ = search list_rules

  pub lset-Keeps : (args : List Text) → Keeps (IsConsistent {Score = Score}) (lset now args)
  unfolding lset
  lset-Keeps (key ∷ i ∷ v ∷ []) = search list_rules depth 9
  lset-Keeps _ = search list_rules

  pub llen-Keeps : (args : List Text) → Keeps (IsConsistent {Score = Score}) (llen now args)
  unfolding llen
  llen-Keeps (key ∷ []) = search list_rules
  llen-Keeps _ = search list_rules

  pub ltrim-Keeps : (args : List Text) → Keeps (IsConsistent {Score = Score}) (ltrim now args)
  unfolding ltrim
  ltrim-Keeps (key ∷ a ∷ b ∷ []) = search list_rules depth 9
  ltrim-Keeps _ = search list_rules

  pub lrem-Keeps : (args : List Text) → Keeps (IsConsistent {Score = Score}) (lrem now args)
  unfolding lrem
  lrem-Keeps (key ∷ c ∷ t ∷ []) = search list_rules depth 8
  lrem-Keeps _ = search list_rules

  push_to-Keeps :
      (dst : Text) (at_head : Bool) (val : Text)
      → Keeps (IsConsistent {Score = Score}) (push_to now dst at_head val)
  unfolding push_to
  push_to-Keeps dst at_head val = search list_rules

  transfer-Keeps :
      (src dst : Text) (at_head : Bool) (o : Option (Text × List Text))
      → Keeps (IsConsistent {Score = Score}) (transfer now src dst at_head o)
  unfolding transfer
  transfer-Keeps src dst at_head none = search list_rules
  transfer-Keeps src dst at_head (some (v, rest)) = search (list_rules, push_to-Keeps)

  pub rpoplpush-Keeps :
      (args : List Text) → Keeps (IsConsistent {Score = Score}) (rpoplpush now args)
  unfolding rpoplpush
  rpoplpush-Keeps (src ∷ dst ∷ []) = search (list_rules, transfer-Keeps)
  rpoplpush-Keeps _ = search list_rules

  pub lmove-Keeps : (args : List Text) → Keeps (IsConsistent {Score = Score}) (lmove now args)
  unfolding lmove
  lmove-Keeps (src ∷ dst ∷ f ∷ t ∷ []) = search (list_rules, transfer-Keeps) depth 8
  lmove-Keeps _ = search list_rules

  take_value-Keeps :
      (key : Text) (o : Option (Text × List Text))
      → Keeps (IsConsistent {Score = Score}) (take_value key o)
  unfolding take_value
  take_value-Keeps key none = search list_rules
  take_value-Keeps key (some (v, rest)) = search list_rules

  pub lpop_value-Keeps : (key : Text) → Keeps (IsConsistent {Score = Score}) (lpop_value now key)
  unfolding lpop_value
  lpop_value-Keeps key = search (list_rules, take_value-Keeps)

  pub rpop_value-Keeps : (key : Text) → Keeps (IsConsistent {Score = Score}) (rpop_value now key)
  unfolding rpop_value
  rpop_value-Keeps key = search (list_rules, take_value-Keeps)
