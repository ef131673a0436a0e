-- ===== src/Sets/Laws.antt =====
-- What SINTER, SUNION and SDIFF compute, by membership.
use redis_clone_js.Prelude.{◌≡◌, refl, Bool, true, false, not, ◌&&◌, ◌||◌, List, [], ◌∷◌, arith}
use redis_clone_js.Prelude.Text.{Text, text_eq_iff}
use redis_clone_js.SetOf
use redis_clone_js.SetOf.Laws.{has-add, has-delete}
use redis_clone_js.Sets.Algebra.{
  insert_by_size, sort_by_size, in_all, common, intersection, add_all, delete_all,
}

in_all-insert_by_size :
    (s : List Text) (ls : List (List Text)) (v : Text)
    → in_all (insert_by_size s ls) v ≡ (SetOf.has s v && in_all ls v)
unfolding in_all insert_by_size
in_all-insert_by_size s [] v = refl
in_all-insert_by_size s (t ∷ ls) v = ground (arith, in_all-insert_by_size s ls v)

in_all-sort_by_size : (ls : List (List Text)) (v : Text) → in_all (sort_by_size ls) v ≡ in_all ls v
unfolding in_all sort_by_size
in_all-sort_by_size [] v = refl
in_all-sort_by_size (s ∷ ls) v =
    ground (arith, in_all-insert_by_size s (sort_by_size ls) v, in_all-sort_by_size ls v)

has-common :
    (first : List Text) (rest : List (List Text)) (v : Text)
    → SetOf.has (common first rest) v ≡ (SetOf.has first v && in_all rest v)
unfolding common SetOf.has
has-common [] rest v = refl
has-common (x ∷ first) rest v = ground (arith, has-common first rest v, text_eq_iff x v)

abbrev is_cons : {A : Type 0} → List A → Bool
is_cons [] = false
is_cons (_ ∷ _) = true

is_cons-insert_by_size :
    (s : List Text) (ls : List (List Text)) → is_cons (insert_by_size s ls) ≡ true
unfolding insert_by_size
is_cons-insert_by_size s [] = refl
is_cons-insert_by_size s (t ∷ ls) = ground arith

has-intersection :
    (ls : List (List Text)) (v : Text) → SetOf.has (intersection ls) v ≡ (is_cons ls && in_all ls v)
unfolding intersection in_all SetOf.has
has-intersection [] v = refl
has-intersection (s ∷ ls) v = has-common s ls v

is_cons-sort_by_size :
    (s : List Text) (ls : List (List Text)) → is_cons (sort_by_size (s ∷ ls)) ≡ true
unfolding sort_by_size
is_cons-sort_by_size s ls = is_cons-insert_by_size s (sort_by_size ls)

-- The intersection of at least one set, computed from the smallest set on, holds exactly the members
-- of all the sets.
pub has-intersection_sorted :
    (s : List Text) (ls : List (List Text)) (v : Text)
    → SetOf.has (intersection (sort_by_size (s ∷ ls))) v ≡ in_all (s ∷ ls) v
has-intersection_sorted s ls v = ground (
  arith,
  has-intersection (sort_by_size (s ∷ ls)) v,
  in_all-sort_by_size (s ∷ ls) v,
  is_cons-sort_by_size s ls,
)

-- A set after the members of another were added holds exactly the members of both.
pub has-add_all :
    (vs s : List Text) (v : Text) → SetOf.has (add_all vs s) v ≡ (SetOf.has vs v || SetOf.has s v)
unfolding add_all SetOf.has
has-add_all [] s v = refl
has-add_all (x ∷ vs) s v = ground (arith, has-add_all vs (SetOf.add s x) v, has-add s x v)

-- A set after the members of another were deleted holds exactly its members that the other lacks.
pub has-delete_all :
    (vs s : List Text) (v : Text)
    → SetOf.has (delete_all vs s) v ≡ (not (SetOf.has vs v) && SetOf.has s v)
unfolding delete_all SetOf.has
has-delete_all [] s v = refl
has-delete_all (x ∷ vs) s v =
    ground (arith, has-delete_all vs (SetOf.delete s x) v, has-delete s x v)
