-- ===== src/Cmd/Keeps.antt =====
-- Invariants of handlers, one rule for each way to build a handler.
use redis_clone_js.Prelude.{Bool, true, false, Option, none, some, if◌then◌else◌}
use redis_clone_js.Cmd.{
  Cmd, Outcome, returns, throws, unmodelled, pure, raise, gets, with_state, modify, given, ◌>>=◌,
}

-- Whether it ends in a reply, in an exception or not at all, the handler leaves `P` true.
pub record Keeps {ℓ} {S A : Type ℓ} (P : S → Type 0) (handler : Cmd S A) : Type ℓ where
  pub at : (before : S) → P before → P (handler before).1

module _ {ℓ} {S A : Type ℓ} {P : S → Type 0} where
  -- A handler that only reads keeps everything.
  Keeps-reads : (outcome : S → Outcome A) → Keeps P (λ s. (outcome s, s))
  Keeps-reads outcome = record { at = λ before holds. holds }

  pub Keeps-gets : (read : S → A) → Keeps P (gets read)
  unfolding gets
  Keeps-gets read = Keeps-reads (λ s. returns (read s))

  pub Keeps-raise : (outcome : Outcome A) → Keeps P (raise outcome)
  unfolding raise
  Keeps-raise outcome = Keeps-reads (λ _. outcome)

  pub Keeps-pure : (result : A) → Keeps P (pure result)
  unfolding pure
  Keeps-pure result = Keeps-reads (λ _. returns result)

  pub Keeps-with_state : (f : S → A × S) → ((s : S) → P s → P (f s).1) → Keeps P (with_state f)
  unfolding with_state
  Keeps-with_state f keep = record { at = keep }

  pub Keeps-if : (b : Bool) (m n : Cmd S A) → Keeps P m → Keeps P n → Keeps P (if b then m else n)
  Keeps-if true m n km kn = km
  Keeps-if false m n km kn = kn

module _ {S : Type 0} {P : S → Type 0} where
  pub Keeps-modify : (f : S → S) → ((s : S) → P s → P (f s)) → Keeps P (modify f)
  unfolding modify
  Keeps-modify f keep = record { at = keep }

module _ {ℓ} {S A B : Type ℓ} {P : S → Type 0} where
  pub Keeps-given :
      (o : Option A) (m : Cmd S B) (f : A → Cmd S B)
      → Keeps P m
      → ((a : A) → Keeps P (f a))
      → Keeps P (given o m f)
  unfolding given
  Keeps-given none m f km kf = km
  Keeps-given (some a) m f km kf = kf a

  Keeps-continue :
      (o : Outcome A) (f : A → Cmd S B) → ((a : A) → Keeps P (f a)) → Keeps P (raise o >>= f)
  unfolding ◌>>=◌
  Keeps-continue (returns a) f kf = kf a
  Keeps-continue throws f kf = record { at = λ s h. h }
  Keeps-continue unmodelled f kf = record { at = λ s h. h }

  pub Keeps-bind :
      (first : Cmd S A) (then_do : A → Cmd S B)
      → Keeps P first
      → ((a : A) → Keeps P (then_do a))
      → Keeps P (first >>= then_do)
  unfolding ◌>>=◌
  Keeps-bind first then_do keep_first keep_then = record {
    at = λ before holds.
        (Keeps-continue (first before).0 then_do keep_then).at (first before).1
          (keep_first.at before holds);
  }

pub ruleset keeps_rules = (Keeps-pure, Keeps-raise, Keeps-gets, Keeps-if, Keeps-given, Keeps-bind)
