-- ===== src/Store/View.antt =====
-- What a client can see of the store at a time: an expired entry is not seen, although it stays in
-- the maps until a command or the timer meets it.
use redis_clone_js.Prelude.{
  ℕ, ◌≤◌, ◌≡◌, refl, true, Option, none, some, arith, if◌then◌else◌, Bool-cases, inl, inr,
}
use redis_clone_js.Prelude.Text.{Text, text_eq, text_eq_iff, text_eq_refl}
use redis_clone_js.Prelude.Int.{ℤ, pos, negsuc}
use redis_clone_js.Map
use redis_clone_js.Map.Laws.{get-delete, get-set}
use redis_clone_js.Store.{Entry, Store, is_due, remove, put, purge_if_expired}

module _ {Score : Type 0} where
  abbrev pub view : ℕ → Store Score → Text → Option (Entry Score)
  view now s k = if is_due now (Map.get s.expires k) then none else Map.get s.kv k

  abbrev pub deadline : ℕ → Store Score → Text → Option ℤ
  deadline now s k = if is_due now (Map.get s.expires k) then none else Map.get s.expires k

pub is_due_mono : (now t : ℕ) (o : Option ℤ) → now ≤ t → is_due now o ≡ true → is_due t o ≡ true
unfolding is_due
is_due_mono now t none h due = cc
is_due_mono now t (some (pos e)) h due = ground arith
is_due_mono now t (some (negsuc e)) h due = ground arith

module _ {Score : Type 0} where
  -- Two stores that no client can tell apart from the time `now` on.
  pub record SameView (now : ℕ) (s s' : Store Score) : Type 0 where
    pub views : (t : ℕ) (k : Text) → now ≤ t → view t s k ≡ view t s' k
    pub deadlines : (t : ℕ) (k : Text) → now ≤ t → deadline t s k ≡ deadline t s' k

  pub view-remove_due :
      (now t : ℕ) (key k : Text) (s : Store Score)
      → now ≤ t
      → is_due now (Map.get s.expires key) ≡ true
      → view t (remove key s) k ≡ view t s k
  unfolding remove is_due
  view-remove_due now t key k s h due = ground (
    arith,
    get-delete s.kv key k,
    get-delete s.expires key k,
    text_eq_iff key k,
    is_due_mono now t (Map.get s.expires key),
  )

  pub deadline-remove_due :
      (now t : ℕ) (key k : Text) (s : Store Score)
      → now ≤ t
      → is_due now (Map.get s.expires key) ≡ true
      → deadline t (remove key s) k ≡ deadline t s k
  unfolding remove is_due
  deadline-remove_due now t key k s h due = ground (
    arith,
    get-delete s.expires key k,
    text_eq_iff key k,
    is_due_mono now t (Map.get s.expires key),
  )

  -- The removal of an entry that is due shows to no client, at any time from then on.
  pub purge_if_expired-SameView :
      (now : ℕ) (key : Text) (s : Store Score) → SameView now (purge_if_expired now key s) s
  unfolding purge_if_expired
  purge_if_expired-SameView now key s = elim (Bool-cases (is_due now (Map.get s.expires key))) [
    | inl due ↦ rw due (record {
      views = λ t k h. view-remove_due now t key k s h due;
      deadlines = λ t k h. deadline-remove_due now t key k s h due;
    })
    | inr live ↦ rw live (record { views = λ t k h. refl; deadlines = λ t k h. refl })
  ]

  pub view-put :
      (t : ℕ) (key k : Text) (e : Entry Score) (s : Store Score)
      → view t (put key e s) k ≡ (
          if text_eq key k
          then (if is_due t (Map.get s.expires k) then none else some e)
          else view t s k)
  unfolding put
  view-put t key k e s = ground (arith, get-set s.kv key k e)

  -- A new entry under a key that the client sees is seen, as the deadline stays.
  pub view-put_live :
      (now : ℕ) (key : Text) (old e : Entry Score) (s : Store Score)
      → view now s key ≡ some old
      → view now (put key e s) key ≡ some e
  view-put_live now key old e s h = rw (view-put now key key e s) (ground (arith, text_eq_refl key))
