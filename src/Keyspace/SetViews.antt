-- ===== src/Keyspace/SetViews.antt =====
-- SET and RENAME, by what a client can see of the store.
use redis_clone_js.Prelude.{
  ℕ, ◌≤◌, ◌≡◌, refl, Bool, true, false, not, ◌&&◌, Option, none, some, arith, if◌then◌else◌,
  Bool-cases, Option-cases, inl, inr, ◌∙◌,
}
use redis_clone_js.Prelude.Text.{Text, text, text_eq, text_eq_iff}
use redis_clone_js.Prelude.Int.{ℤ}
use redis_clone_js.Map
use redis_clone_js.Map.Laws.{get-delete, get-set}
use redis_clone_js.Cmd.{returns, ◌>>=◌, modify, given}
use redis_clone_js.Cmd.Runs.{bind-returns}
use redis_clone_js.Protocol.{encode_bulk_string, encode_error, encode_simple_string}
use redis_clone_js.Store.{
  Store, Entry, is_due, put, set_expiry, clear_expiry, purge_if_expired, get_entry, to_bool,
}
use redis_clone_js.Store.View.{view, deadline, purge_if_expired-SameView}
use redis_clone_js.Keyspace.Options.{SetOptions}
use redis_clone_js.Keyspace.{string_entry, store_deadline, set_entry, set_checked, old_value}
use redis_clone_js.Store.Looks.{get_entry-eq-view, expires-purge_if_expired}

-- The deadline that SET leaves, from the old one.
abbrev pub new_deadline : SetOptions → Option ℤ → Option ℤ
new_deadline o old = elim o.expire_at [
  | Option.some exp ↦ some exp
  | Option.none ↦ if o.keep_ttl then old else none
]

-- Whether SET writes, by the presence of the key.
abbrev pub set_writes : SetOptions → Bool → Bool
set_writes o present =
    if o.nx && o.xx then false else if o.nx then not present else if o.xx then present else true

module _ {Score : Type 0} where
  expires-store_deadline :
      (key k : Text) (o : SetOptions) (s : Store Score)
      → Map.get (store_deadline key o s).expires k
        ≡ (if text_eq key k then new_deadline o (Map.get s.expires k) else Map.get s.expires k)
  unfolding store_deadline set_expiry clear_expiry
  expires-store_deadline key k o s = elim (Option-cases o.expire_at) [
    | inl absent ↦
        rw (absent, store_deadline, new_deadline)
          (ground (arith, get-delete s.expires key k, text_eq_iff key k))
    | inr (exp, given) ↦ rw (given, store_deadline, new_deadline) (get-set s.expires key k exp)
  ]

  kv-store_deadline :
      (key : Text) (o : SetOptions) (s : Store Score) → (store_deadline key o s).kv ≡ s.kv
  unfolding store_deadline set_expiry clear_expiry
  kv-store_deadline key o s = ground arith

  set_entry-view :
      (t : ℕ) (key value k : Text) (o : SetOptions) (s : Store Score)
      → view t (set_entry key value o s) k ≡ (
          if text_eq key k
          then (if is_due t (new_deadline o (Map.get s.expires k))
              then none
              else some (string_entry value))
          else view t s k)
  unfolding set_entry put
  set_entry-view t key value k o s =
      rw
        (
          expires-store_deadline key k o (put key (string_entry value) s),
          kv-store_deadline key o (put key (string_entry value) s),
        )
        (rw (get-set s.kv key k (string_entry value)) (ground arith))

  abbrev pub set_reply : SetOptions → Option (Entry Score) → Text
  set_reply o old =
      if o.nx && o.xx
      then encode_error (text "syntax error")
      else if not (set_writes o (to_bool old))
      then encode_bulk_string none
      else if o.get_opt
      then encode_bulk_string (old_value old)
      else encode_simple_string (text "OK")

  -- SET on every branch of its options: the error for NX with XX, nil and no write where NX or XX
  -- forbids it, and otherwise the write, with the old string or OK as the reply.
  pub set_checked-eq :
      (now : ℕ) (key value : Text) (o : SetOptions) (s : Store Score)
      → set_checked now key value o s ≡ (
        returns (set_reply o (view now s key)),
        if o.nx && o.xx
            then s
            else if set_writes o (to_bool (view now s key))
            then set_entry key value o (purge_if_expired now key s)
            else purge_if_expired now key s,
      )
  unfolding set_checked ◌>>=◌ modify
  set_checked-eq now key value o s = elim (Bool-cases (o.nx && o.xx)) [
    | inl both ↦ rw both refl
    | inr fine ↦
        rw fine (bind-returns (get_entry now key) _ (get_entry-eq-view now key s) ∙ ground arith)
  ]

  -- After SET, with any options, from the command's time on: where the options let it write, its key
  -- shows the new string until the deadline that the options leave; every other key, and its own key
  -- where it does not write, show what they showed before.
  pub set_checked-view :
      (now t : ℕ) (key value k : Text) (o : SetOptions) (s : Store Score)
      → now ≤ t
      → view t (set_checked now key value o s).1 k ≡ (
          if set_writes o (to_bool (view now s key)) && text_eq key k
          then (if is_due t (new_deadline o (deadline now s key))
              then none
              else some (string_entry value))
          else view t s k)
  set_checked-view now t key value k o s h =
      let same = purge_if_expired-SameView now key s in
      rw (set_checked-eq now key value o s) (
        ground (
          arith,
          set_entry-view t key value k o (purge_if_expired now key s),
          same.views t k h,
          expires-purge_if_expired now key s,
          text_eq_iff key k,
        ))
