-- ===== src/Map/Laws.antt =====
-- The laws of the map, in the form that has no side condition.
use redis_clone_js.Prelude.{
  suc, ◌≡◌, refl, Bool, true, false, not, ◌&&◌, ◌||◌, Option, none, some, [], ◌∷◌, arith, length,
  if◌then◌else◌,
}
use redis_clone_js.Prelude.Text.{Text, text_eq, text_eq_iff, text_eq_refl}
use redis_clone_js.Map.{Map, get, has, set, delete, Unique}

abbrev pub is_some {ℓ} : {A : Type ℓ} → Option A → Bool
is_some none = false
is_some (some _) = true

module _ {ℓ} {V : Type ℓ} where
  pub get-set :
      (m : Map V) (k j : Text) (v : V)
      → get (set m k v) j ≡ (if text_eq k j then some v else get m j)
  unfolding get set
  get-set [] k j v = refl
  get-set ((i, w) ∷ m) k j v =
      ground (arith, text_eq_iff k j, text_eq_iff i k, text_eq_iff i j, get-set m k j v)

  pub get-set_self : (m : Map V) (k : Text) (v : V) → get (set m k v) k ≡ some v
  get-set_self m k v = rw get-set (rw text_eq_refl)

  pub get-delete :
      (m : Map V) (k j : Text) → get (delete m k) j ≡ (if text_eq k j then none else get m j)
  unfolding get delete
  get-delete [] k j = ground arith
  get-delete ((i, w) ∷ m) k j =
      ground (arith, text_eq_iff k j, text_eq_iff i k, text_eq_iff i j, get-delete m k j)

  pub get-delete_self : (m : Map V) (k : Text) → get (delete m k) k ≡ none
  get-delete_self m k = rw get-delete (rw text_eq_refl)

  pub has-eq-get : (m : Map V) (k : Text) → has m k ≡ is_some (get m k)
  unfolding get has
  has-eq-get [] k = refl
  has-eq-get ((i, w) ∷ m) k = ground (arith, has-eq-get m k)

  pub has-set : (m : Map V) (k j : Text) (v : V) → has (set m k v) j ≡ (text_eq k j || has m j)
  has-set m k j v = rw (has-eq-get (set m k v) j) (rw get-set (ground (arith, has-eq-get m j)))

  pub has-delete : (m : Map V) (k j : Text) → has (delete m k) j ≡ (not (text_eq k j) && has m j)
  has-delete m k j = rw (has-eq-get (delete m k) j) (rw get-delete (ground (arith, has-eq-get m j)))

  pub length-set :
      (m : Map V) (k : Text) (v : V)
      → length (set m k v) ≡ (if has m k then length m else suc (length m))
  unfolding has set
  length-set [] k v = refl
  length-set ((i, w) ∷ m) k v = ground (arith, length-set m k v)

  pub delete-eq_self : (m : Map V) (k : Text) → has m k ≡ false → delete m k ≡ m
  unfolding has delete
  delete-eq_self [] k h = refl
  delete-eq_self ((i, w) ∷ m) k h = ground (arith, delete-eq_self m k)

  -- With unique keys a deletion removes one entry, if the key is there.
  pub length-delete :
      (m : Map V) (k : Text)
      → Unique m
      → length m ≡ (if has m k then suc (length (delete m k)) else length (delete m k))
  unfolding has delete
  length-delete [] k u = refl
  length-delete ((i, w) ∷ m) k u =
      ground (arith, length-delete m k u.1, delete-eq_self m k, text_eq_iff i k)

  pub set-Unique : (m : Map V) (k : Text) (v : V) → Unique m → Unique (set m k v)
  unfolding set has
  set-Unique [] k v u = (refl, tt)
  set-Unique ((i, w) ∷ m) k v u =
      ground (arith, set-Unique m k v u.1, has-set m k i v, text_eq_iff i k, text_eq_iff k i)

  pub delete-Unique : (m : Map V) (k : Text) → Unique m → Unique (delete m k)
  unfolding delete
  delete-Unique [] k u = tt
  delete-Unique ((i, w) ∷ m) k u = ground (arith, delete-Unique m k u.1, has-delete m k i)
