-- ===== src/Store/Looks.antt =====
-- What the helpers that look up a key give, by what a client can see of the store.
use redis_clone_js.Prelude.{
  ℕ, ◌≡◌, refl, true, Option, none, some, arith, Bool-cases, inl, inr, ap, ◌∙◌,
}
use redis_clone_js.Prelude.Text.{Text}
use redis_clone_js.Map
use redis_clone_js.Map.Laws.{get-delete_self}
use redis_clone_js.Cmd.Runs.{bind-returns}
use redis_clone_js.Cmd.{returns, ◌>>=◌, pure, with_state, modify}
use redis_clone_js.Store.{
  EntryType, Value, init_entry, get_or_init, Store, Entry, same_type, is_due, remove, put,
  purge_if_expired, lookup_entry, get_entry, found, ensure, or_unmodelled, classify,
}
use redis_clone_js.Store.View.{view, deadline}

pub same_type_refl : (t : EntryType) → same_type t t ≡ true
same_type_refl t = ground arith

module _ {Score : Type 0} where
  lookup_entry-eq-view :
      (now : ℕ) (key : Text) (s : Store Score)
      → lookup_entry now key s ≡ (view now s key, purge_if_expired now key s)
  unfolding lookup_entry remove
  lookup_entry-eq-view now key s = elim (Bool-cases (is_due now (Map.get s.expires key))) [
    | inl due ↦ rw due (rw get-delete_self refl)
    | inr live ↦ rw live refl
  ]

  pub get_entry-eq-view :
      (now : ℕ) (key : Text) (s : Store Score)
      → get_entry now key s ≡ (returns (view now s key), purge_if_expired now key s)
  unfolding get_entry with_state
  get_entry-eq-view now key s = ap (λ r. (returns r.0, r.1)) (lookup_entry-eq-view now key s)

  pub expires-purge_if_expired :
      (now : ℕ) (key : Text) (s : Store Score)
      → Map.get (purge_if_expired now key s).expires key ≡ deadline now s key
  unfolding purge_if_expired remove
  expires-purge_if_expired now key s = elim (Bool-cases (is_due now (Map.get s.expires key))) [
    | inl due ↦ rw due (get-delete_self s.expires key)
    | inr live ↦ rw live refl
  ]

  pub ensure-eq :
      {A : Type 0} (type : EntryType) (as_kind : Value Score → Option A) (now : ℕ) (key : Text)
      (s : Store Score)
      → ensure type as_kind now key s
        ≡ classify type as_kind (view now s key) (purge_if_expired now key s)
  unfolding ensure
  ensure-eq type as_kind now key s =
      bind-returns (get_entry now key) (classify type as_kind) (get_entry-eq-view now key s)

  -- A key that shows an entry of the type and the kind asked for.
  pub ensure-found :
      {A : Type 0} (type : EntryType) (as_kind : Value Score → Option A) (now : ℕ) (key : Text)
      (s : Store Score) (v : Value Score) (a : A)
      → view now s key ≡ some (record { type = type; value = v })
      → as_kind v ≡ some a
      → ensure type as_kind now key s ≡ (returns (found a), purge_if_expired now key s)
  unfolding classify or_unmodelled pure
  ensure-found type as_kind now key s v a there kind =
      ensure-eq type as_kind now key s ∙ rw there (rw (same_type_refl type) (rw kind refl))

  pub get_or_init-found :
      (fresh e : Entry Score) (now : ℕ) (key : Text) (s : Store Score)
      → view now s key ≡ some e
      → get_or_init fresh now key s ≡ (returns e, purge_if_expired now key s)
  unfolding get_or_init init_entry pure
  get_or_init-found fresh e now key s there =
      bind-returns (get_entry now key) _ (get_entry-eq-view now key s) ∙ rw there refl

  pub get_or_init-missing :
      (fresh : Entry Score) (now : ℕ) (key : Text) (s : Store Score)
      → view now s key ≡ none
      → get_or_init fresh now key s ≡ (returns fresh, put key fresh (purge_if_expired now key s))
  unfolding get_or_init init_entry ◌>>=◌ modify
  get_or_init-missing fresh now key s absent =
      bind-returns (get_entry now key) (init_entry key fresh) (get_entry-eq-view now key s)
      ∙ rw absent refl
