-- ===== src/SetOf/Laws.antt =====
-- The laws of sets, in the form that has no side condition.
use redis_clone_js.Prelude.{◌≡◌, refl, false, not, ◌&&◌, ◌||◌, List, [], ◌∷◌, ◌++◌, arith}
use redis_clone_js.Prelude.Text.{Text, text_eq, text_eq_iff}
use redis_clone_js.SetOf.{has, add, delete, Unique}

pub has-append : (s t : List Text) (v : Text) → has (s ++ t) v ≡ (has s v || has t v)
unfolding has
has-append [] t v = refl
has-append (x ∷ s) t v = ground (arith, has-append s t v)

pub has-add : (s : List Text) (v w : Text) → has (add s v) w ≡ (text_eq v w || has s w)
unfolding add has
has-add s v w = ground (arith, has-append s (v ∷ []) w, text_eq_iff v w)

pub has-delete : (s : List Text) (v w : Text) → has (delete s v) w ≡ (not (text_eq v w) && has s w)
unfolding has delete
has-delete [] v w = ground arith
has-delete (x ∷ s) v w =
    ground (arith, has-delete s v w, text_eq_iff x v, text_eq_iff x w, text_eq_iff v w)

append-Unique : (s : List Text) (v : Text) → has s v ≡ false → Unique s → Unique (s ++ v ∷ [])
unfolding has
append-Unique [] v h u = (refl, tt)
append-Unique (x ∷ s) v h u =
    ground (arith, append-Unique s v, has-append s (v ∷ []) x, text_eq_iff x v, text_eq_iff v x)

pub add-Unique : (s : List Text) (v : Text) → Unique s → Unique (add s v)
unfolding add
add-Unique s v u = ground (arith, append-Unique s v)

pub delete-Unique : (s : List Text) (v : Text) → Unique s → Unique (delete s v)
unfolding delete
delete-Unique [] v u = tt
delete-Unique (x ∷ s) v u = ground (arith, delete-Unique s v u.1, has-delete s v x)
