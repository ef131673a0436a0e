-- ===== src/Cmd.antt =====
-- Command handlers: methods that change the data store and end in a reply or in an exception.
-- What was written before an exception stays written, so the store comes back in every case.
pub mod Keeps
pub mod Runs
use redis_clone_js.Prelude.{Option, none, some}

-- `unmodelled`: the model does not follow the handler further: it met an entry whose value is not of
-- the kind that its type names (Store.antt), or is a command without a handler here (Dispatch.antt).
pub data Outcome {ℓ} (A : Type ℓ) : Type ℓ where
  returns : A → Outcome A
  throws : Outcome A
  unmodelled : Outcome A

abbrev pub Cmd {ℓ} : Type ℓ → Type ℓ → Type ℓ
Cmd S A = S → Outcome A × S

module _ {ℓ} {S A : Type ℓ} where
  unfoldable pub pure : A → Cmd S A
  pure a s = (returns a, s)

  unfoldable pub raise : Outcome A → Cmd S A
  raise o s = (o, s)

  unfoldable pub gets : (S → A) → Cmd S A
  gets f s = (returns (f s), s)

  -- The result of a read that may have changed the state.
  unfoldable pub with_state : (S → A × S) → Cmd S A
  with_state f s = let (a, s') = f s in (returns a, s')

module _ {S : Type 0} where
  unfoldable pub modify : (S → S) → Cmd S Unit
  modify f s = (returns tt, f s)

module _ {ℓ} {S A B : Type ℓ} where
  abbrev pub continue : Outcome A → (A → Cmd S B) → S → Outcome B × S
  continue (returns a) f s = f a s
  continue throws f s = (throws, s)
  continue unmodelled f s = (unmodelled, s)

  infixl 10 ◌>>=◌ ◌>>◌
  -- Opening this opens the other ways to build a handler.
  unfoldable pub ◌>>=◌ : Cmd S A → (A → Cmd S B) → Cmd S B
  unfolding pure raise gets with_state
  ◌>>=◌ m f s = let (o, s') = m s in continue o f s'

  abbrev pub ◌>>◌ : Cmd S A → Cmd S B → Cmd S B
  m >> n = m >>= λ _. n

  -- A test for undefined or null.
  unfoldable pub given : Option A → Cmd S B → (A → Cmd S B) → Cmd S B
  given none absent present = absent
  given (some a) absent present = present a
