-- ===== src/Ttl/Consistent.antt =====
-- The commands on deadlines keep the invariant of the two maps.
use redis_clone_js.Prelude.{ℕ, List, [], ◌∷◌}
use redis_clone_js.Prelude.Text.{Text}
use redis_clone_js.Cmd.{modify}
use redis_clone_js.Cmd.Keeps.{Keeps, Keeps-modify}
use redis_clone_js.Store.Consistent.{IsConsistent, consistent_rules}
use redis_clone_js.Store.Present.{present_rules}
use redis_clone_js.Ttl.{notify_expired, expire, ttl, persist, pttl, pexpire, expireat, pexpireat}

module _ {Score : Type 0} where
  notify_expired-Keeps :
      (key : Text) → Keeps (IsConsistent {Score = Score}) (modify (notify_expired key))
  unfolding notify_expired
  notify_expired-Keeps key = Keeps-modify (notify_expired key) (λ s c. record {
    kv_unique = c.kv_unique;
    expires_unique = c.expires_unique;
    deadline_has_entry = c.deadline_has_entry;
  })

ruleset expiry_rules = (present_rules, notify_expired-Keeps)

module _ {Score : Type 0} where
  pub expire-Keeps :
      (now : ℕ) (args : List Text) → Keeps (IsConsistent {Score = Score}) (expire now args)
  unfolding expire
  expire-Keeps now (key ∷ t ∷ []) = search expiry_rules depth 9
  expire-Keeps now _ = search consistent_rules

  pub ttl-Keeps : (now : ℕ) (args : List Text) → Keeps (IsConsistent {Score = Score}) (ttl now args)
  unfolding ttl
  ttl-Keeps now (key ∷ []) = search consistent_rules depth 8
  ttl-Keeps now _ = search consistent_rules

  pub persist-Keeps :
      (now : ℕ) (args : List Text) → Keeps (IsConsistent {Score = Score}) (persist now args)
  unfolding persist
  persist-Keeps now (key ∷ []) = search consistent_rules depth 8
  persist-Keeps now _ = search consistent_rules

  pub pttl-Keeps :
      (now : ℕ) (args : List Text) → Keeps (IsConsistent {Score = Score}) (pttl now args)
  unfolding pttl
  pttl-Keeps now (key ∷ []) = search consistent_rules depth 8
  pttl-Keeps now _ = search consistent_rules

  pub pexpire-Keeps :
      (now : ℕ) (args : List Text) → Keeps (IsConsistent {Score = Score}) (pexpire now args)
  unfolding pexpire
  pexpire-Keeps now (key ∷ t ∷ []) = search expiry_rules depth 9
  pexpire-Keeps now _ = search consistent_rules

  pub expireat-Keeps :
      (now : ℕ) (args : List Text) → Keeps (IsConsistent {Score = Score}) (expireat now args)
  unfolding expireat
  expireat-Keeps now (key ∷ t ∷ []) = search expiry_rules depth 9
  expireat-Keeps now _ = search consistent_rules

  pub pexpireat-Keeps :
      (now : ℕ) (args : List Text) → Keeps (IsConsistent {Score = Score}) (pexpireat now args)
  unfolding pexpireat
  pexpireat-Keeps now (key ∷ t ∷ []) = search expiry_rules depth 9
  pexpireat-Keeps now _ = search consistent_rules
