-- ===== src/Cmd/Runs.antt =====
-- Running a handler whose parts' results are known.
use redis_clone_js.Prelude.{◌≡◌, refl, ap}
use redis_clone_js.Cmd.{Cmd, Outcome, returns, throws, unmodelled, continue, ◌>>=◌}

module _ {ℓ} {S A B : Type ℓ} where
  pub bind-returns :
      (m : Cmd S A) (f : A → Cmd S B) {s s' : S} {a : A}
      → m s ≡ (returns a, s')
      → (m >>= f) s ≡ f a s'
  unfolding ◌>>=◌
  bind-returns m f e = ap (λ r. continue r.0 f r.1) e

  pub bind-eq :
      (m n : Cmd S A) (f : A → Cmd S B) {s s' : S} → m s ≡ n s' → (m >>= f) s ≡ (n >>= f) s'
  unfolding ◌>>=◌
  bind-eq m n f e = ap (λ r. continue r.0 f r.1) e

module _ {ℓ} {S A B C : Type ℓ} where
  pub bind_assoc :
      (m : Cmd S A) (f : A → Cmd S B) (g : B → Cmd S C) (s : S)
      → (m >>= λ a. f a >>= g) s ≡ ((m >>= f) >>= g) s
  unfolding ◌>>=◌
  bind_assoc m f g s = inner (m s)
    where
      inner :
          (r : Outcome A × S)
          → continue r.0 (λ a. f a >>= g) r.1
            ≡ continue (continue r.0 f r.1).0 g (continue r.0 f r.1).1
      inner (returns a, s) = refl
      inner (throws, s) = refl
      inner (unmodelled, s) = refl
