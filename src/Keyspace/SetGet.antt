-- ===== src/Keyspace/SetGet.antt =====
-- src/core/DataStore.js: SET with GET, against the command GET before and after.
use redis_clone_js.Prelude.{
  ℕ, ◌≤◌, ◌≡◌, refl, ap, ◌∙◌, sym, Bool, true, false, Option, none, some, [], ◌∷◌, arith,
  if◌then◌else◌,
}
use redis_clone_js.Prelude.Text.{Text, text_eq_refl}
use redis_clone_js.Cmd.{returns}
use redis_clone_js.Protocol.{encode_bulk_string}
use redis_clone_js.Store.{Store, Entry, string, same_type, to_string, is_due, to_bool}
use redis_clone_js.Store.View.{view, deadline}
use redis_clone_js.Keyspace.Options.{SetOptions}
use redis_clone_js.Keyspace.{get, set_checked, string_entry}
use redis_clone_js.Keyspace.Views.{get_reply, get-eq-view}
use redis_clone_js.Keyspace.SetViews.{
  set_checked-eq, set_checked-view, set_writes, set_reply, new_deadline,
}

get_reply-string :
    (Score : Type 0) (gone : Bool) (value : Text)
    → get_reply {Score = Score} (if gone then none else some (string_entry value))
      ≡ encode_bulk_string (if gone then none else some value)
unfolding to_string
get_reply-string Score true value = refl
get_reply-string Score false value = refl

module _ {Score : Type 0} where
  -- Nothing, or an entry that GET takes.
  abbrev pub IsReadable : Option (Entry Score) → Type 0
  IsReadable none = Unit
  IsReadable (some e) = same_type e.type string ≡ true

  set_reply-get_reply :
      (o : SetOptions) (seen : Option (Entry Score))
      → o.get_opt ≡ true
      → set_writes o (to_bool seen) ≡ true
      → IsReadable seen
      → set_reply o seen ≡ get_reply seen
  set_reply-get_reply o none asked writes h = ground arith
  set_reply-get_reply o (some e) asked writes h = ground arith

  -- SET with the option GET, where its other options let it write and the key shows a string or
  -- nothing: its reply is the one that GET would have given just before, and GET replies, at each
  -- time from then on, with the new string until the deadline that the options leave, and with nil
  -- from it on.
  pub get-set_checked :
      (now t : ℕ) (key value : Text) (o : SetOptions) (s : Store Score)
      → now ≤ t
      → o.get_opt ≡ true
      → set_writes o (to_bool (view now s key)) ≡ true
      → IsReadable (view now s key)
      → ((set_checked now key value o s).0 ≡ (get now (key ∷ []) s).0)
        × ((get t (key ∷ []) (set_checked now key value o s).1).0
            ≡ returns (
                encode_bulk_string
                  (if is_due t (new_deadline o (deadline now s key)) then none else some value)))
  get-set_checked now t key value o s h asked writes readable =
      let seen = view now s key in
      let after : view t (set_checked now key value o s).1 key ≡ (
          if is_due t (new_deadline o (deadline now s key))
          then none
          else some (string_entry value)) =
        set_checked-view now t key value key o s h ∙ ground (arith, text_eq_refl key) in
      (
        ap (λ r. r.0) (set_checked-eq now key value o s)
            ∙ ap returns (set_reply-get_reply o seen asked writes readable)
            ∙ ap (λ r. r.0) (sym (get-eq-view now key s)),
        ap (λ r. r.0) (get-eq-view t key (set_checked now key value o s).1)
            ∙ ap (λ e. returns (get_reply e)) after
            ∙ ap returns
                (get_reply-string Score (is_due t (new_deadline o (deadline now s key))) value),
      )
