-- ===== src/Store/Timer.antt =====
-- The pass of the timer over the deadlines, `_purgeExpiredBatch`.
use redis_clone_js.Prelude.{
  ℕ, ◌≡◌, refl, true, false, some, [], ◌∷◌, arith, Bool-cases, inl, inr, ◌∙◌,
}
use redis_clone_js.Prelude.Text.{Text, text_eq_iff, text_eq_refl}
use redis_clone_js.Prelude.Int.{ℤ}
use redis_clone_js.Map
use redis_clone_js.Map.Laws.{get-delete, has-eq-get}
use redis_clone_js.Store.{Store, is_due, remove, purge_keys, purge_expired_batch}
use redis_clone_js.Store.View.{SameView, view-remove_due, deadline-remove_due}
use redis_clone_js.Store.Consistent.{IsConsistent}

module _ {Score : Type 0} where
  SameView-trans :
      (now : ℕ) (s s' s'' : Store Score)
      → SameView now s s'
      → SameView now s' s''
      → SameView now s s''
  SameView-trans now s s' s'' a b = record {
    views = λ t k h. a.views t k h ∙ b.views t k h;
    deadlines = λ t k h. a.deadlines t k h ∙ b.deadlines t k h;
  }

  -- What is left to visit agrees with the store, and what is not left to visit is not due.
  record IsMidway (now : ℕ) (rest : Map.Map ℤ) (s : Store Score) : Type 0 where
    unique : Map.Unique rest
    agrees : (k : Text) → Map.has rest k ≡ true → Map.get s.expires k ≡ Map.get rest k
    visited : (k : Text) → Map.has rest k ≡ false → is_due now (Map.get s.expires k) ≡ false

  abbrev evict : Text → Store Score → Store Score
  evict key s = let s' = remove key s in record s' { events = key ∷ s'.events }

  evict-SameView :
      (now : ℕ) (key : Text) (s : Store Score)
      → is_due now (Map.get s.expires key) ≡ true
      → SameView now (evict key s) s
  evict-SameView now key s due = record {
    views = λ t k h. view-remove_due now t key k s h due;
    deadlines = λ t k h. deadline-remove_due now t key k s h due;
  }

  head-deadline :
      (now : ℕ) (key : Text) (exp : ℤ) (rest : Map.Map ℤ) (s : Store Score)
      → IsMidway now ((key, exp) ∷ rest) s
      → Map.get s.expires key ≡ some exp
  unfolding Map.get Map.has
  head-deadline now key exp rest s m = ground (arith, m.agrees key, text_eq_refl key)

  evict-IsMidway :
      (now : ℕ) (key : Text) (exp : ℤ) (rest : Map.Map ℤ) (s : Store Score)
      → IsMidway now ((key, exp) ∷ rest) s
      → IsMidway now rest (evict key s)
  unfolding Map.get Map.has remove is_due
  evict-IsMidway now key exp rest s m = record {
    unique = m.unique.1;
    agrees = λ k h.
        ground (arith, m.agrees k, get-delete s.expires key k, text_eq_iff key k, m.unique.0);
    visited = λ k h. ground (arith, m.visited k, get-delete s.expires key k, text_eq_iff key k);
  }

  skip-IsMidway :
      (now : ℕ) (key : Text) (exp : ℤ) (rest : Map.Map ℤ) (s : Store Score)
      → is_due now (some exp) ≡ false
      → IsMidway now ((key, exp) ∷ rest) s
      → IsMidway now rest s
  unfolding Map.get Map.has
  skip-IsMidway now key exp rest s live m = record {
    unique = m.unique.1;
    agrees = λ k h. ground (arith, m.agrees k, text_eq_iff key k, m.unique.0);
    visited =
        λ k h. ground (arith, m.visited k, text_eq_iff key k, head-deadline now key exp rest s m);
  }

  -- A store without due deadlines that no client can tell from the old one.
  pub record IsPurged (now : ℕ) (s s' : Store Score) : Type 0 where
    pub same : SameView now s' s
    pub clean : (k : Text) → is_due now (Map.get s'.expires k) ≡ false

  purge_keys_lem :
      (now : ℕ) (rest : Map.Map ℤ) (s : Store Score)
      → IsMidway now rest s
      → IsPurged now s (purge_keys now rest s)
  unfolding purge_keys
  purge_keys_lem now [] s m = record {
    same = record { views = λ t k h. refl; deadlines = λ t k h. refl };
    clean = λ k. m.visited k (unfold Map.has in refl);
  }
  purge_keys_lem now ((key, exp) ∷ rest) s m = elim (Bool-cases (is_due now (some exp))) [
    | inl due ↦ rw due (
        let r = purge_keys_lem now rest (evict key s) (evict-IsMidway now key exp rest s m) in
        record {
          same =
              SameView-trans now _ _ _ r.same
                (evict-SameView now key s (ground (arith, head-deadline now key exp rest s m)));
          clean = r.clean;
        })
    | inr live ↦ rw live (purge_keys_lem now rest s (skip-IsMidway now key exp rest s live m))
  ]

  -- On a consistent store the timer's pass leaves no deadline that is due, and no client can tell,
  -- at any time from then on, that it ran.
  pub purge_expired_batch-removes_due :
      (now : ℕ) (s : Store Score) → IsConsistent s → IsPurged now s (purge_expired_batch now s)
  unfolding purge_expired_batch
  purge_expired_batch-removes_due now s c = purge_keys_lem now s.expires s (record {
    unique = c.expires_unique;
    agrees = λ k h. refl;
    visited = λ k h. unfold is_due in ground (arith, has-eq-get s.expires k);
  })
