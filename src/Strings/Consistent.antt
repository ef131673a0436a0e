-- ===== src/Strings/Consistent.antt =====
-- The string commands keep the invariant of the two maps.
use redis_clone_js.Prelude.{ℕ, Option, some, List, [], ◌∷◌}
use redis_clone_js.Prelude.Text.{Text, text, to_upper}
use redis_clone_js.Prelude.Int.{ℤ}
use redis_clone_js.Number.{Doubles, Floats}
use redis_clone_js.Cmd.{pure, modify, ◌>>◌}
use redis_clone_js.Cmd.Keeps.{Keeps, Keeps-modify, Keeps-pure, Keeps-bind, Keeps-if}
use redis_clone_js.Store.{Store, Entry}
use redis_clone_js.Store.Consistent.{
  IsConsistent, put-IsConsistent, put-set_expiry-IsConsistent, clear_expiry-IsConsistent,
  get_entry-Keeps, consistent_rules,
}
use redis_clone_js.Store.Present.{KeepsPresent, present_rules}
use redis_clone_js.Keyspace.{string_entry}
use redis_clone_js.Protocol.{encode_simple_string, encode_error}
use redis_clone_js.Strings.{
  append, strlen, range_reply, getrange, substr, setrange, mget_values, mget, set_string, set_pairs,
  pairs_of, mset, setnx, any_exists, msetnx_pairs, msetnx,
}
use redis_clone_js.Strings.Counter.{add_to_entry, apply_incr_by, incr, decr, incrby, decrby}
use redis_clone_js.Strings.Exchange.{
  set_until, setex, psetex, getset, getdel, getex_option, getex_args, getex, incrbyfloat,
}

module _ {Score : Type 0} where
  set_string-IsConsistent :
      (key value : Text) (s : Store Score) → IsConsistent s → IsConsistent (set_string key value s)
  unfolding set_string
  set_string-IsConsistent key value s c =
      clear_expiry-IsConsistent key _ (put-IsConsistent key (string_entry value) s c)

  set_pairs-IsConsistent :
      (ps : List (Text × Text)) (s : Store Score) → IsConsistent s → IsConsistent (set_pairs ps s)
  unfolding set_pairs
  set_pairs-IsConsistent [] s c = c
  set_pairs-IsConsistent ((k, v) ∷ rest) s c =
      set_pairs-IsConsistent rest (set_string k v s) (set_string-IsConsistent k v s c)

  set_string-Keeps :
      (key value : Text) → Keeps (IsConsistent {Score = Score}) (modify (set_string key value))
  set_string-Keeps key value =
      Keeps-modify (set_string key value) (set_string-IsConsistent key value)

  set_pairs-Keeps :
      (ps : List (Text × Text)) → Keeps (IsConsistent {Score = Score}) (modify (set_pairs ps))
  set_pairs-Keeps ps = Keeps-modify (set_pairs ps) (set_pairs-IsConsistent ps)

  set_until-Keeps :
      (key value : Text) (exp : ℤ)
      → Keeps (IsConsistent {Score = Score}) (modify (set_until key value exp))
  unfolding set_until
  set_until-Keeps key value exp =
      Keeps-modify (set_until key value exp)
        (put-set_expiry-IsConsistent key (string_entry value) exp)

  pub append-Keeps :
      (now : ℕ) (args : List Text) → Keeps (IsConsistent {Score = Score}) (append now args)
  unfolding append
  append-Keeps now (key ∷ value ∷ []) = search consistent_rules
  append-Keeps now _ = search consistent_rules

  pub strlen-Keeps :
      (now : ℕ) (args : List Text) → Keeps (IsConsistent {Score = Score}) (strlen now args)
  unfolding strlen
  strlen-Keeps now (key ∷ []) = search consistent_rules
  strlen-Keeps now _ = search consistent_rules

  range_reply-Keeps :
      (s : Text) (start end : Option ℤ)
      → Keeps (IsConsistent {Score = Score}) (range_reply s start end)
  unfolding range_reply
  range_reply-Keeps s (some a) (some b) = search consistent_rules
  range_reply-Keeps s _ _ = search consistent_rules

  pub getrange-Keeps :
      (now : ℕ) (args : List Text) → Keeps (IsConsistent {Score = Score}) (getrange now args)
  unfolding getrange
  getrange-Keeps now (key ∷ a ∷ b ∷ []) = search (consistent_rules, range_reply-Keeps)
  getrange-Keeps now _ = search consistent_rules

  pub substr-Keeps :
      (now : ℕ) (args : List Text) → Keeps (IsConsistent {Score = Score}) (substr now args)
  unfolding substr
  substr-Keeps now (key ∷ a ∷ b ∷ []) = getrange-Keeps now (key ∷ a ∷ b ∷ [])
  substr-Keeps now _ = search consistent_rules

  pub setrange-Keeps :
      (now : ℕ) (args : List Text) → Keeps (IsConsistent {Score = Score}) (setrange now args)
  unfolding setrange
  setrange-Keeps now (key ∷ a ∷ v ∷ []) = search consistent_rules depth 8
  setrange-Keeps now _ = search consistent_rules

  mget_values-Keeps :
      (now : ℕ) (ks : List Text) → Keeps (IsConsistent {Score = Score}) (mget_values now ks)
  unfolding mget_values
  mget_values-Keeps now [] = search consistent_rules
  mget_values-Keeps now (k ∷ ks) =
      Keeps-bind _ _ (get_entry-Keeps now k)
        (λ entry. Keeps-bind _ _ (mget_values-Keeps now ks) (λ rest. Keeps-pure _))

  pub mget-Keeps :
      (now : ℕ) (args : List Text) → Keeps (IsConsistent {Score = Score}) (mget now args)
  unfolding mget
  mget-Keeps now args = search (consistent_rules, mget_values-Keeps)

  pub mset-Keeps : (args : List Text) → Keeps (IsConsistent {Score = Score}) (mset args)
  unfolding mset
  mset-Keeps args =
      elim (pairs_of args)
        as (λ o. Keeps (IsConsistent {Score = Score}) (elim o [
          | Option.some ((k, v) ∷ rest) ↦ do
            modify (set_pairs ((k, v) ∷ rest))
            pure (encode_simple_string (text "OK"))
          | _ ↦ pure (encode_error (text "wrong number of arguments for 'MSET'"))
        ])) [
          | Option.some ((k, v) ∷ rest) ↦ search (consistent_rules, set_pairs-Keeps)
          | _ ↦ search consistent_rules
        ]

  pub setnx-Keeps :
      (now : ℕ) (args : List Text) → Keeps (IsConsistent {Score = Score}) (setnx now args)
  unfolding setnx
  setnx-Keeps now (key ∷ v ∷ []) = search (consistent_rules, set_string-Keeps)
  setnx-Keeps now _ = search consistent_rules

  any_exists-Keeps :
      (now : ℕ) (ps : List (Text × Text)) → Keeps (IsConsistent {Score = Score}) (any_exists now ps)
  unfolding any_exists
  any_exists-Keeps now [] = search consistent_rules
  any_exists-Keeps now ((k, v) ∷ rest) =
      Keeps-bind _ _ (get_entry-Keeps now k)
        (λ entry. Keeps-if _ _ _ (Keeps-pure _) (any_exists-Keeps now rest))

  msetnx_pairs-Keeps :
      (now : ℕ) (ps : List (Text × Text))
      → Keeps (IsConsistent {Score = Score}) (msetnx_pairs now ps)
  unfolding msetnx_pairs
  msetnx_pairs-Keeps now ps = search (consistent_rules, set_pairs-Keeps, any_exists-Keeps)

  pub msetnx-Keeps :
      (now : ℕ) (args : List Text) → Keeps (IsConsistent {Score = Score}) (msetnx now args)
  unfolding msetnx
  msetnx-Keeps now args =
      elim (pairs_of args)
        as (λ o. Keeps (IsConsistent {Score = Score}) (elim o [
          | Option.some ((k, v) ∷ rest) ↦ msetnx_pairs now ((k, v) ∷ rest)
          | _ ↦ pure (encode_error (text "wrong number of arguments for 'MSETNX'"))
        ])) [
          | Option.some ((k, v) ∷ rest) ↦ msetnx_pairs-Keeps now ((k, v) ∷ rest)
          | _ ↦ search consistent_rules
        ]

  pub psetex-Keeps : (args : List Text) → Keeps (IsConsistent {Score = Score}) (psetex args)
  unfolding psetex
  psetex-Keeps args = Keeps-pure _

  pub getset-Keeps :
      (now : ℕ) (args : List Text) → Keeps (IsConsistent {Score = Score}) (getset now args)
  unfolding getset
  getset-Keeps now (key ∷ v ∷ []) = search (consistent_rules, set_string-Keeps) depth 8
  getset-Keeps now _ = search consistent_rules

  pub getdel-Keeps :
      (now : ℕ) (args : List Text) → Keeps (IsConsistent {Score = Score}) (getdel now args)
  unfolding getdel
  getdel-Keeps now (key ∷ []) = search consistent_rules depth 8
  getdel-Keeps now _ = search consistent_rules

  pub setex-Keeps :
      (now : ℕ) (args : List Text) → Keeps (IsConsistent {Score = Score}) (setex now args)
  unfolding setex
  setex-Keeps now (key ∷ t ∷ v ∷ []) = search (consistent_rules, set_until-Keeps)
  setex-Keeps now _ = search consistent_rules

  getex_option-Keeps :
      (now : ℕ) (key value opt arg : Text)
      → KeepsPresent {Score = Score} key (getex_option now key value opt arg)
  unfolding getex_option
  getex_option-Keeps now key value opt arg = search present_rules depth 9

  getex_args-Keeps :
      (now : ℕ) (key value : Text) (opts : List Text)
      → KeepsPresent {Score = Score} key (getex_args now key value opts)
  unfolding getex_args
  getex_args-Keeps now key value [] = search present_rules
  getex_args-Keeps now key value (opt ∷ []) =
      getex_option-Keeps now key value (to_upper opt) (text "undefined")
  getex_args-Keeps now key value (opt ∷ arg ∷ _) =
      getex_option-Keeps now key value (to_upper opt) arg

  pub getex-Keeps :
      (now : ℕ) (args : List Text) → Keeps (IsConsistent {Score = Score}) (getex now args)
  unfolding getex
  getex-Keeps now [] = search consistent_rules
  getex-Keeps now (key ∷ opts) = search (present_rules, getex_args-Keeps)

  pub incrbyfloat-Keeps :
      (f : Floats Score) (now : ℕ) (args : List Text)
      → Keeps (IsConsistent {Score = Score}) (incrbyfloat f now args)
  unfolding incrbyfloat
  incrbyfloat-Keeps f now (key ∷ by ∷ []) = search consistent_rules depth 8
  incrbyfloat-Keeps f now _ = search consistent_rules

  module _ (d : Doubles) where
    add_to_entry-Keeps :
        (key : Text) (amount : ℤ) (e : Entry Score)
        → Keeps (IsConsistent {Score = Score}) (add_to_entry d key amount e)
    unfolding add_to_entry
    add_to_entry-Keeps key amount e = search consistent_rules depth 8

    apply_incr_by-Keeps :
        (now : ℕ) (key : Text) (amount : ℤ)
        → Keeps (IsConsistent {Score = Score}) (apply_incr_by d now key amount)
    unfolding apply_incr_by
    apply_incr_by-Keeps now key amount = search (consistent_rules, add_to_entry-Keeps)

    pub incr-Keeps :
        (now : ℕ) (args : List Text) → Keeps (IsConsistent {Score = Score}) (incr d now args)
    unfolding incr
    incr-Keeps now (key ∷ []) = apply_incr_by-Keeps now key _
    incr-Keeps now _ = search consistent_rules

    pub decr-Keeps :
        (now : ℕ) (args : List Text) → Keeps (IsConsistent {Score = Score}) (decr d now args)
    unfolding decr
    decr-Keeps now (key ∷ []) = apply_incr_by-Keeps now key _
    decr-Keeps now _ = search consistent_rules

    pub incrby-Keeps :
        (now : ℕ) (args : List Text) → Keeps (IsConsistent {Score = Score}) (incrby d now args)
    unfolding incrby
    incrby-Keeps now (key ∷ by ∷ []) = search (consistent_rules, apply_incr_by-Keeps)
    incrby-Keeps now _ = search consistent_rules

    pub decrby-Keeps :
        (now : ℕ) (args : List Text) → Keeps (IsConsistent {Score = Score}) (decrby d now args)
    unfolding decrby
    decrby-Keeps now (key ∷ by ∷ []) = search (consistent_rules, apply_incr_by-Keeps)
    decrby-Keeps now _ = search consistent_rules
