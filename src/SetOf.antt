-- ===== src/SetOf.antt =====
-- JavaScript's `Set` of strings: a list without repetitions, in insertion order.
pub mod Laws
use redis_clone_js.Prelude.{Bool, true, false, ◌||◌, List, [], ◌∷◌, ◌++◌, if◌then◌else◌, ◌≡◌}
use redis_clone_js.Prelude.Text.{Text, text_eq}

-- s.has(v)
unfoldable pub has : List Text → Text → Bool
has [] v = false
has (x ∷ s) v = text_eq x v || has s v

-- s.add(v)
unfoldable pub add : List Text → Text → List Text
unfolding has
add s v = if has s v then s else s ++ v ∷ []

-- s.delete(v), without its Boolean result, which is `has s v`
unfoldable pub delete : List Text → Text → List Text
delete [] v = []
delete (x ∷ s) v = let rest = delete s v in if text_eq x v then rest else x ∷ rest

-- No element stands twice, which a `Set` guarantees.
abbrev pub Unique : List Text → Type 0
Unique [] = Unit
Unique (x ∷ s) = (has s x ≡ false) × Unique s
