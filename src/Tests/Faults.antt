-- ===== src/Tests/Faults.antt =====
-- Commands on keys of another type.
use redis_clone_js.Prelude.{◌≡◌, refl, [], ◌∷◌, some}
use redis_clone_js.Prelude.Text.{text, text_eq}
use redis_clone_js.Prelude.Int.{pos}
use redis_clone_js.Map
use redis_clone_js.Cmd.{throws, returns}
use redis_clone_js.Protocol.{encode_integer, utf8_length}
use redis_clone_js.Store.{list, str, is_due, to_string}
use redis_clone_js.Store.View.{view}
use redis_clone_js.Keyspace.{string_entry}
use redis_clone_js.Lists.Queue.{list_entry}
use redis_clone_js.Lists.Moves.{rpoplpush}
use redis_clone_js.Lists.Loss.{rpoplpush-loses_element}
use redis_clone_js.Strings.{append}
use redis_clone_js.Strings.Append.{append-view}
use redis_clone_js.Tests.Data.{store, counter_key, list_key}

list_key-shown : view 100 store list_key ≡ some (list_entry (text "x" ∷ text "y" ∷ []))
unfolding Map.get text_eq is_due
list_key-shown = refl

counter_key-shown : view 100 store counter_key ≡ some (string_entry (text "41"))
unfolding Map.get text_eq is_due
counter_key-shown = refl

rpoplpush-loses_element_example :
    ((rpoplpush 100 (list_key ∷ counter_key ∷ []) store).0 ≡ throws)
    × (view 100 (rpoplpush 100 (list_key ∷ counter_key ∷ []) store).1 list_key
        ≡ some (list_entry (text "x" ∷ [])))
rpoplpush-loses_element_example =
    rpoplpush-loses_element 100 list_key counter_key (text "y") (text "x" ∷ [])
      (string_entry (text "41")) store list_key-shown counter_key-shown refl

append-view_example :
    ((append 100 (list_key ∷ text "z" ∷ []) store).0 ≡ returns (encode_integer (pos 4)))
    × (view 100 (append 100 (list_key ∷ text "z" ∷ []) store).1 list_key
        ≡ some (record { type = list; value = str (text "x,yz") }))
unfolding to_string utf8_length
append-view_example =
    append-view 100 list_key (text "z") (list_entry (text "x" ∷ text "y" ∷ [])) store list_key-shown
