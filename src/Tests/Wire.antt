-- ===== src/Tests/Wire.antt =====
-- Bytes on the wire, in the log and in the backlog.
use redis_clone_js.Prelude.{
  ℕ, suc, ◌+◌, ◌≡◌, refl, ap, ◌∙◌, true, Option, none, some, List, [], ◌∷◌, ◌++◌, arith, length,
  take, drop, take-append-drop, append-nil,
}
use redis_clone_js.Prelude.Text.{Text, text}
use redis_clone_js.Prelude.Int.{pos}
use redis_clone_js.Number.{show_ℕ, parse_int}
use redis_clone_js.Protocol.{crlf, encode_array_of_bulk_strings}
use redis_clone_js.Parser.{Bytes, parsed, parse_next}
use redis_clone_js.Parser.Messages.{Node, array_node_to_string_array}
use redis_clone_js.Parser.Feed.{fed, unfinished, feed, feed_loop}
use redis_clone_js.Parser.Lengths.{lengths_fit}
use redis_clone_js.Parser.Chunks.{and_feed, feed-append, feed-ends}
use redis_clone_js.Parser.RoundTrip.{all_well_formed, parse_next-encode_array_of_bulk_strings}
use redis_clone_js.Parser.Logs.{Command, AllWellFormed, negative_bulk, feed_loop-never_ends}
use redis_clone_js.Server.Databases.{db_prefix, has_line_end, extract_db_and_key_from_stored_key}
use redis_clone_js.Server.Apart.{extract-db_prefix}
use redis_clone_js.Server.Backlog.{sync_from, init_backlog}
use redis_clone_js.Server.Resume.{append_all, sync_of_stream, append_to_backlog-sync_from}
use redis_clone_js.Aof.{load_and_replay}
use redis_clone_js.Aof.Replay.{append_commands, load_and_replay-append_commands}
use redis_clone_js.Tests.Utf8.{padded}

abbrev get_k : Command
get_k = some (text "GET") ∷ some (text "k") ∷ none ∷ []

get_k_well_formed : all_well_formed get_k ≡ true
unfolding all_well_formed
get_k_well_formed = refl

parse_next-encode_array_of_bulk_strings_example :
    (node : Node) × (parse_next padded.decode 2 0
        (padded.encode (encode_array_of_bulk_strings get_k ++ text "+"))
      ≡ parsed node (length (padded.encode (encode_array_of_bulk_strings get_k))))
    × (array_node_to_string_array node ≡ some get_k)
parse_next-encode_array_of_bulk_strings_example =
    parse_next-encode_array_of_bulk_strings padded 0 0 get_k (text "+") get_k_well_formed

abbrev first_part : Bytes
first_part = text "*1" ++ (crlf ++ text "$4")

abbrev second_part : Bytes
second_part = crlf ++ (text "PING" ++ (crlf ++ text ":7"))

parts_fit : lengths_fit padded.decode (first_part ++ second_part) ≡ true
unfolding lengths_fit parse_int
parts_fit = refl

feed-append_example :
    feed padded.decode [] (first_part ++ second_part)
    ≡ and_feed (feed padded.decode [] first_part) (λ left. feed padded.decode left second_part)
feed-append_example = feed-append padded.decode [] first_part second_part parts_fit

feed-ends_example :
    (nodes : List Node) × (left : Bytes) × (feed padded.decode first_part second_part
      ≡ fed nodes left)
feed-ends_example = feed-ends padded.decode first_part second_part parts_fit

far_below : length (negative_bulk 100 []) + length (negative_bulk 100 []) + 1 ≡ 15
unfolding negative_bulk show_ℕ
far_below = refl

-- $-100
feed_loop-never_ends_example : feed_loop padded.decode 3 (negative_bulk 100 []) ≡ unfinished
feed_loop-never_ends_example = feed_loop-never_ends padded 98 [] 3 (omega (arith, far_below))

abbrev two_commands : List Command
two_commands = get_k ∷ [] ∷ (some (text "FLUSHDB") ∷ []) ∷ []

two_commands_well_formed : AllWellFormed two_commands
unfolding all_well_formed
two_commands_well_formed = (refl, (refl, (refl, tt)))

abbrev count : Option Text → List (Option Text) → ℕ → ℕ
count cmd args n = suc n

-- A file that is read in two chunks.
abbrev file : Bytes
file = append_commands padded [] two_commands

load_and_replay-append_commands_example :
    load_and_replay count padded.decode (take 7 file ∷ drop 7 file ∷ []) [] 0 ≡ some 2
load_and_replay-append_commands_example =
    load_and_replay-append_commands count padded two_commands (take 7 file ∷ drop 7 file ∷ []) 0
      two_commands_well_formed
      (ap (take 7 file ++◌) (append-nil (drop 7 file)) ∙ take-append-drop 7 file)

extract-db_prefix_example :
    extract_db_and_key_from_stored_key (db_prefix 3 ++ text "user:1") ≡ (3, text "user:1")
extract-db_prefix_example = extract-db_prefix 3 (text "user:1") (unfold has_line_end in refl)

append_to_backlog-sync_from_example :
    sync_from (append_all (init_backlog 4) (text "abc" ∷ text "def" ∷ [])) (some (pos 4))
    ≡ sync_of_stream 4 (text "abcdef") 4
append_to_backlog-sync_from_example = append_to_backlog-sync_from 4 4 (text "abc" ∷ text "def" ∷ [])
