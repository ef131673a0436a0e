-- ===== src/Hashes/Fields.antt =====
-- What HSET and HDEL do to the map of a hash, and what they reply.
use redis_clone_js.Prelude.{
  ℕ, ◌+◌, ◌≡◌, refl, Option, some, List, [], ◌∷◌, length, arith, if◌then◌else◌, ◌∙◌,
}
use redis_clone_js.Prelude.Text.{Text, text_eq}
use redis_clone_js.Map
use redis_clone_js.Map.{Map, Unique}
use redis_clone_js.Map.Laws.{length-set, length-delete, delete-Unique, get-set}
use redis_clone_js.Hashes.{set_fields, delete_fields}

-- The number that HSET replies, after a count `n` to start from, is the growth of the map, whatever
-- fields the command repeats.
pub length-set_fields :
    (ps : List (Text × Text)) (m : Map Text) (n : ℕ)
    → length (set_fields ps m n).0 + n ≡ length m + (set_fields ps m n).1
unfolding set_fields
length-set_fields [] m n = refl
length-set_fields ((f, v) ∷ ps) m n = ground (
  arith,
  length-set m f v,
  length-set_fields ps (Map.set m f v) n,
  length-set_fields ps (Map.set m f v) (n + 1),
)

-- With unique fields, the number that HDEL replies is the shrinkage of the map, whatever fields the
-- command repeats.
pub length-delete_fields :
    (fs : List Text) (m : Map Text) (n : ℕ)
    → Unique m
    → length (delete_fields fs m n).0 + (delete_fields fs m n).1 ≡ length m + n
unfolding delete_fields
length-delete_fields [] m n u = refl
length-delete_fields (f ∷ fs) m n u = ground (
  arith,
  length-delete m f u,
  length-delete_fields fs (Map.delete m f) n (delete-Unique m f u),
  length-delete_fields fs (Map.delete m f) (n + 1) (delete-Unique m f u),
)

-- The value that the last pair for a field gives, or the old one.
unfoldable pub last_value : List (Text × Text) → Text → Option Text → Option Text
last_value [] k old = old
last_value ((f, v) ∷ ps) k old = last_value ps k (if text_eq f k then some v else old)

-- After HSET each field has the value of its last pair, or the old one if no pair has the field.
pub get-set_fields :
    (ps : List (Text × Text)) (m : Map Text) (n : ℕ) (k : Text)
    → Map.get (set_fields ps m n).0 k ≡ last_value ps k (Map.get m k)
unfolding set_fields last_value
get-set_fields [] m n k = refl
get-set_fields ((f, v) ∷ ps) m n k = get-set_fields ps (Map.set m f v) _ k ∙ rw (get-set m f k v)
