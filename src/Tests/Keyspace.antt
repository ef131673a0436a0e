-- ===== src/Tests/Keyspace.antt =====
-- The commands on keys and deadlines.
use redis_clone_js.Prelude.{ℕ, ◌≡◌, refl, true, none, some, [], ◌∷◌, arith}
use redis_clone_js.Prelude.Text.{text, text_eq, to_upper}
use redis_clone_js.Prelude.Int.{ℤ, pos, ◌+ℤ◌, ◌*ℤ◌}
use redis_clone_js.Map
use redis_clone_js.Number.{parse_int}
use redis_clone_js.Cmd.{returns}
use redis_clone_js.Protocol.{encode_integer, encode_bulk_string}
use redis_clone_js.Store.{Entry, is_due, purge_if_expired, purge_expired_batch}
use redis_clone_js.Store.Consistent.{IsConsistent}
use redis_clone_js.Store.View.{view, SameView, purge_if_expired-SameView}
use redis_clone_js.Store.Timer.{IsPurged, purge_expired_batch-removes_due}
use redis_clone_js.Keyspace.Options.{SetOptions, no_options}
use redis_clone_js.Keyspace.{get, set_checked, rename, string_entry}
use redis_clone_js.Keyspace.Views.{get-eq-view}
use redis_clone_js.Keyspace.SetViews.{set_checked-view}
use redis_clone_js.Keyspace.SetGet.{get-set_checked}
use redis_clone_js.Keyspace.RenameViews.{rename-view}
use redis_clone_js.Ttl.{expire, ttl}
use redis_clone_js.Ttl.Views.{expire-view, HasSecondsLeft, ttl-HasSecondsLeft, ttl-expire}
use redis_clone_js.Dispatch.{dispatch, find_handler, commands, keyspace_commands}
use redis_clone_js.Dispatch.Consistent.{dispatch-IsConsistent}
use redis_clone_js.Tests.Data.{engine, store, store-IsConsistent, counter_key, list_key, old_key}

abbrev keep_ttl_options : SetOptions
keep_ttl_options = record no_options { keep_ttl = true }

abbrev counter_entry : Entry ℕ
counter_entry = string_entry (text "41")

counter-shown : view 100 store counter_key ≡ some counter_entry
unfolding Map.get text_eq is_due
counter-shown = refl

thousand-parsed : parse_int (text "1000") ≡ some (pos 1000)
unfolding parse_int
thousand-parsed = refl

expire_found :
    find_handler engine 100 (commands engine 100) (to_upper (text "expire")) ≡ some (expire 100)
unfolding find_handler keyspace_commands text_eq to_upper
expire_found = refl

dispatch-IsConsistent_example :
    IsConsistent (dispatch engine 100 (text "expire") (counter_key ∷ text "1000" ∷ []) store).1
dispatch-IsConsistent_example =
    dispatch-IsConsistent engine 100 (text "expire") (counter_key ∷ text "1000" ∷ []) (expire 100)
      store expire_found store-IsConsistent

set_checked-view_example :
    view 600 (set_checked 100 counter_key (text "7") keep_ttl_options store).1 counter_key ≡ none
unfolding Map.get text_eq is_due
set_checked-view_example =
    set_checked-view 100 600 counter_key (text "7") counter_key keep_ttl_options store (omega arith)

abbrev get_options : SetOptions
get_options = record no_options { get_opt = true }

get-set_checked_example :
    ((set_checked 100 counter_key (text "7") get_options store).0
      ≡ (get 100 (counter_key ∷ []) store).0)
    × ((get 600 (counter_key ∷ []) (set_checked 100 counter_key (text "7") get_options store).1).0
        ≡ returns (encode_bulk_string (some (text "7"))))
unfolding Map.get text_eq is_due
get-set_checked_example =
    get-set_checked 100 600 counter_key (text "7") get_options store (omega arith) refl refl refl

get-eq-view_example :
    get 100 (old_key ∷ []) store
    ≡ (returns (encode_bulk_string none), purge_if_expired 100 old_key store)
unfolding Map.get text_eq is_due
get-eq-view_example = get-eq-view 100 old_key store

purge_if_expired-SameView_example : SameView 100 (purge_if_expired 100 old_key store) store
purge_if_expired-SameView_example = purge_if_expired-SameView 100 old_key store

purge_expired_batch-removes_due_example : IsPurged 100 store (purge_expired_batch 100 store)
purge_expired_batch-removes_due_example =
    purge_expired_batch-removes_due 100 store store-IsConsistent

rename-view_example :
    view 200 (rename 100 (counter_key ∷ list_key ∷ []) store).1 list_key ≡ some counter_entry
unfolding Map.get text_eq is_due
rename-view_example = rename-view 100 200 counter_key list_key list_key store (omega arith)

expire-view_example :
    ((expire 100 (counter_key ∷ text "1000" ∷ []) store).0 ≡ returns (encode_integer (pos 1)))
    × (view 900 (expire 100 (counter_key ∷ text "1000" ∷ []) store).1 counter_key
        ≡ some counter_entry)
unfolding text_eq is_due ◌+ℤ◌ ◌*ℤ◌
expire-view_example =
    expire-view 100 900 counter_key (text "1000") counter_key (pos 1000) counter_entry store
      (omega arith) thousand-parsed counter-shown

ttl-HasSecondsLeft_example :
    (r : ℤ) × ((ttl 100 (counter_key ∷ []) store).0 ≡ returns (encode_integer r))
    × HasSecondsLeft 100 true (some (pos 500)) r
    × SameView 100 (ttl 100 (counter_key ∷ []) store).1 store
unfolding Map.get text_eq is_due
ttl-HasSecondsLeft_example = ttl-HasSecondsLeft 100 counter_key store

ttl-expire_example :
    (r : ℤ) × ((ttl 1100 (counter_key ∷ []) (expire 100 (counter_key ∷ text "1000" ∷ []) store).1).0
      ≡ returns (encode_integer r))
    × HasSecondsLeft 1100 true (some (pos 1000100)) r
ttl-expire_example =
    ttl-expire 100 1100 1000 counter_key (text "1000") counter_entry store (omega arith)
      (omega arith) thousand-parsed counter-shown
