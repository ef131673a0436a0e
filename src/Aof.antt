-- ===== src/Aof.antt =====
-- src/server/aof.js: the append-only file, and its replay when the server starts. A file is its bytes;
-- the stream that reads it hands them out in chunks, cut anywhere.
pub mod Replay
use redis_clone_js.Prelude.{ℕ, Option, none, some, List, [], ◌∷◌, ◌++◌, map}
use redis_clone_js.Prelude.Text.{Text, to_upper}
use redis_clone_js.Cmd.{Outcome}
use redis_clone_js.Protocol.{encode_array_of_bulk_strings}
use redis_clone_js.Store.{Store}
use redis_clone_js.Dispatch.{dispatch}
use redis_clone_js.Parser.{Bytes}
use redis_clone_js.Parser.Messages.{Node, array_node_to_string_array}
use redis_clone_js.Parser.Feed.{Fed, fed, unfinished, feed}
use redis_clone_js.Parser.Encoded.{Utf8}
use redis_clone_js.Parser.Logs.{Command}
use redis_clone_js.Server.Databases.{rewrite_args_for_db}
use redis_clone_js.Server.Keys.{or_null}
use redis_clone_js.Server.Session.{Env}

-- `appendCommand`: the payload behind what the file has.
unfoldable pub append_command : Utf8 → Bytes → Command → Bytes
unfolding encode_array_of_bulk_strings
append_command u file args = file ++ u.encode (encode_array_of_bulk_strings args)

module _ {S : Type 0} (executor : Option Text → List (Option Text) → S → S) where
  -- A message: nothing is done with what is no array of bulk strings, nor with an empty one.
  abbrev pub run_strings : Option Command → S → S
  run_strings none s = s
  run_strings (some []) s = s
  run_strings (some (cmd ∷ args)) s = executor cmd args s

  unfoldable pub run_messages : List Node → S → S
  unfolding array_node_to_string_array
  run_messages [] s = s
  run_messages (node ∷ nodes) s =
      run_messages nodes (run_strings (array_node_to_string_array node) s)

  -- What follows a chunk; `none`: the parser does not come to an end.
  abbrev pub after_feed : (Bytes → S → Option S) → S → Fed → Option S
  after_feed next s (fed nodes left) = next left (run_messages nodes s)
  after_feed next s unfinished = none
  after_feed next s Fed.astray = none

  -- `loadAndReplay`: the chunks of the file, with the buffer of the parser.
  unfoldable pub load_and_replay : (Bytes → Text) → List Bytes → Bytes → S → Option S
  unfolding feed run_messages
  load_and_replay decode [] buffer s = some s
  load_and_replay decode (chunk ∷ chunks) buffer s =
      after_feed (load_and_replay decode chunks) s (feed decode buffer chunk)

-- The executor of `start`, which replays into database 0 and drops exceptions.
unfoldable pub replay_command :
    {Score : Type 0} → Env Score → ℕ → Option Text → List (Option Text) → Store Score → Store Score
unfolding dispatch rewrite_args_for_db
replay_command env now cmd args store =
    let upper = to_upper (or_null cmd) in
    (dispatch env.engine now upper (rewrite_args_for_db upper args 0) store).1
