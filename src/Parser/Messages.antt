-- ===== src/Parser/Messages.antt =====
-- src/core/protocol.js: the nodes that the parser gives, and the command in an array node.
use redis_clone_js.Prelude.{Option, none, some, List, [], ◌∷◌}
use redis_clone_js.Prelude.Text.{Text}
use redis_clone_js.Prelude.Int.{ℤ}

mutual
  pub data Node : Type 0 where
    simple : Text → Node
    error : Text → Node
    integer : ℤ → Node
    bulk : Option Text → Node
    null_array : Node
    array : Nodes → Node

  pub data Nodes : Type 0 where
    nil : Nodes
    cons : Node → Nodes → Nodes

abbrev cons_string : Option Text → Option (List (Option Text)) → Option (List (Option Text))
cons_string t none = none
cons_string t (some ts) = some (t ∷ ts)

-- The strings of the nodes, if every one is a bulk string (`isArrayOfBulkStrings`).
unfoldable pub bulk_strings : Nodes → Option (List (Option Text))
bulk_strings nil = some []
bulk_strings (cons (bulk t) nodes) = cons_string t (bulk_strings nodes)
bulk_strings (cons (simple t) nodes) = none
bulk_strings (cons (error t) nodes) = none
bulk_strings (cons (integer n) nodes) = none
bulk_strings (cons null_array nodes) = none
bulk_strings (cons (array ns) nodes) = none

unfoldable pub array_node_to_string_array : Node → Option (List (Option Text))
unfolding bulk_strings
array_node_to_string_array (array nodes) = bulk_strings nodes
array_node_to_string_array _ = none

-- The array node of a command.
unfoldable pub bulk_nodes : List (Option Text) → Nodes
bulk_nodes [] = nil
bulk_nodes (t ∷ ts) = cons (bulk t) (bulk_nodes ts)
