-- ===== src/Map.antt =====
-- JavaScript's `Map` with string keys: an association list in insertion order. `set` on a present
-- key keeps its place, as in JavaScript. A `Set` is a list in insertion order (SetOf.antt).
pub mod Laws
use redis_clone_js.Prelude.{
  ℕ, ◌≡◌, Bool, true, false, ◌||◌, Option, none, some, List, [], ◌∷◌, map, length, if◌then◌else◌,
}
use redis_clone_js.Prelude.Text.{Text, text_eq}

abbrev pub Map {ℓ} : Type ℓ → Type ℓ
Map V = List (Text × V)

module _ {ℓ} {V : Type ℓ} where
  -- m.get(k), with `none` for undefined
  unfoldable pub get : Map V → Text → Option V
  get [] k = none
  get ((j, v) ∷ m) k = if text_eq j k then some v else get m k

  -- m.has(k)
  unfoldable pub has : Map V → Text → Bool
  has [] k = false
  has ((j, v) ∷ m) k = text_eq j k || has m k

  -- m.set(k, v)
  unfoldable pub set : Map V → Text → V → Map V
  set [] k v = (k, v) ∷ []
  set ((j, w) ∷ m) k v = if text_eq j k then (j, v) ∷ m else (j, w) ∷ set m k v

  -- m.delete(k), without its Boolean result, which is `has m k`
  unfoldable pub delete : Map V → Text → Map V
  delete [] k = []
  delete ((j, w) ∷ m) k = let rest = delete m k in if text_eq j k then rest else (j, w) ∷ rest

  -- m.size
  abbrev pub size : Map V → ℕ
  size m = length m

  -- Array.from(m.keys()) and Array.from(m.values())
  abbrev pub keys : Map V → List Text
  keys m = map (λ e. e.0) m

  abbrev pub values : Map V → List V
  values m = map (λ e. e.1) m

  -- No key stands twice, which a `Map` guarantees.
  abbrev pub Unique : Map V → Type 0
  Unique [] = Unit
  Unique ((k, v) ∷ m) = (has m k ≡ false) × Unique m
