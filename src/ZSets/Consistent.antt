-- ===== src/ZSets/Consistent.antt =====
-- The commands on sorted sets keep the invariant of the two maps.
use redis_clone_js.Prelude.{ℕ, Bool, false, Option, some, List, [], ◌∷◌}
use redis_clone_js.Prelude.Text.{Text, text}
use redis_clone_js.Prelude.Int.{ℤ}
use redis_clone_js.Number.{Floats}
use redis_clone_js.Cmd.{modify, pure}
use redis_clone_js.Cmd.Keeps.{Keeps, Keeps-modify}
use redis_clone_js.Protocol.{encode_error}
use redis_clone_js.Strings.{pairs_of}
use redis_clone_js.Store.{Entry, Item, ZSet}
use redis_clone_js.Store.Consistent.{IsConsistent, put-IsConsistent, consistent_rules}
use redis_clone_js.ZSets.Commands.{
  write_zset, zrem, zrank, zrevrank, zcard, zpop_count, zpop, zadd_entry, zadd_args, zadd, zscore,
  zrange_reply, zrange_of, zrange, zrevrange, zincrby,
}

module _ {Score : Type 0} where
  write_zset-Keeps : (key : Text) (z : ZSet Score) → Keeps IsConsistent (modify (write_zset key z))
  unfolding write_zset
  write_zset-Keeps key z = Keeps-modify (write_zset key z) (put-IsConsistent key _)

ruleset zset_rules = (consistent_rules, write_zset-Keeps)

module _ {Score : Type 0} (now : ℕ) where
  pub zrem-Keeps : (args : List Text) → Keeps (IsConsistent {Score = Score}) (zrem now args)
  unfolding zrem
  zrem-Keeps (key ∷ m ∷ ms) = search zset_rules
  zrem-Keeps _ = search zset_rules

  pub zrank-Keeps : (args : List Text) → Keeps (IsConsistent {Score = Score}) (zrank now args)
  unfolding zrank
  zrank-Keeps (key ∷ m ∷ []) = search zset_rules
  zrank-Keeps _ = search zset_rules

  pub zrevrank-Keeps : (args : List Text) → Keeps (IsConsistent {Score = Score}) (zrevrank now args)
  unfolding zrevrank
  zrevrank-Keeps (key ∷ m ∷ []) = search zset_rules
  zrevrank-Keeps _ = search zset_rules

  pub zcard-Keeps : (args : List Text) → Keeps (IsConsistent {Score = Score}) (zcard now args)
  unfolding zcard
  zcard-Keeps (key ∷ []) = search zset_rules
  zcard-Keeps _ = search zset_rules

  zpop_count-Keeps :
      (key : Text) (min_first : Bool) (count : Option ℤ)
      → Keeps (IsConsistent {Score = Score}) (zpop_count now key min_first count)
  unfolding zpop_count
  zpop_count-Keeps key min_first count = search zset_rules depth 9

  pub zpop-Keeps :
      (min_first : Bool) (args : List Text)
      → Keeps (IsConsistent {Score = Score}) (zpop min_first now args)
  unfolding zpop
  zpop-Keeps min_first (key ∷ []) = zpop_count-Keeps key min_first _
  zpop-Keeps min_first (key ∷ c ∷ []) = zpop_count-Keeps key min_first _
  zpop-Keeps min_first _ = search zset_rules

  module _ (f : Floats Score) where
    zadd_entry-Keeps :
        (key : Text) (e : Entry Score) (ps : List (Text × Text))
        → Keeps IsConsistent (zadd_entry f key e ps)
    unfolding zadd_entry
    zadd_entry-Keeps key e [] = search zset_rules
    zadd_entry-Keeps key e ((t, m) ∷ ps) = search zset_rules depth 8

    zadd_args-Keeps :
        (key : Text) (ps : List (Text × Text))
        → Keeps (IsConsistent {Score = Score}) (zadd_args f now key ps)
    unfolding zadd_args
    zadd_args-Keeps key ps = search (zset_rules, zadd_entry-Keeps)

    pub zadd-Keeps : (args : List Text) → Keeps (IsConsistent {Score = Score}) (zadd f now args)
    unfolding zadd
    zadd-Keeps [] = search zset_rules
    zadd-Keeps (key ∷ rest) =
        elim (pairs_of rest)
          as (λ o. Keeps (IsConsistent {Score = Score}) (elim o [
            | Option.some (p ∷ ps) ↦ zadd_args f now key (p ∷ ps)
            | _ ↦ pure (encode_error (text "wrong number of arguments for 'ZADD'"))
          ])) [ Option.some (p ∷ ps) ↦ zadd_args-Keeps key (p ∷ ps) | _ ↦ search zset_rules ]

    pub zscore-Keeps : (args : List Text) → Keeps (IsConsistent {Score = Score}) (zscore f now args)
    unfolding zscore
    zscore-Keeps (key ∷ m ∷ []) = search zset_rules depth 8
    zscore-Keeps _ = search zset_rules

    zrange_reply-Keeps :
        (with_scores : Bool) (items : List (Item Score)) (a b : Option ℤ)
        → Keeps IsConsistent (zrange_reply f with_scores items a b)
    unfolding zrange_reply
    zrange_reply-Keeps w items (some a) (some b) = search zset_rules
    zrange_reply-Keeps w items _ _ = search zset_rules

    zrange_of-Keeps :
        (order : List (Item Score) → List (Item Score)) (key start stop : Text) (with_scores : Bool)
        → Keeps IsConsistent (zrange_of f order now key start stop with_scores)
    unfolding zrange_of
    zrange_of-Keeps order key start stop w = search (zset_rules, zrange_reply-Keeps)

    pub zrange-Keeps : (args : List Text) → Keeps (IsConsistent {Score = Score}) (zrange f now args)
    unfolding zrange
    zrange-Keeps (key ∷ a ∷ b ∷ []) = zrange_of-Keeps _ key a b false
    zrange-Keeps (key ∷ a ∷ b ∷ w ∷ []) = search (zset_rules, zrange_of-Keeps)
    zrange-Keeps _ = search zset_rules

    pub zrevrange-Keeps :
        (args : List Text) → Keeps (IsConsistent {Score = Score}) (zrevrange f now args)
    unfolding zrevrange
    zrevrange-Keeps (key ∷ a ∷ b ∷ []) = zrange_of-Keeps _ key a b false
    zrevrange-Keeps (key ∷ a ∷ b ∷ w ∷ []) = search (zset_rules, zrange_of-Keeps)
    zrevrange-Keeps _ = search zset_rules

    pub zincrby-Keeps :
        (args : List Text) → Keeps (IsConsistent {Score = Score}) (zincrby f now args)
    unfolding zincrby
    zincrby-Keeps (key ∷ i ∷ m ∷ []) = search zset_rules depth 8
    zincrby-Keeps _ = search zset_rules
