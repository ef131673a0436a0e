-- ===== src/Aof/Replay.antt =====
-- src/server/aof.js: the replay of a file, against the commands that were appended to it.
use redis_clone_js.Prelude.{
  ◌≡◌, refl, ap, sym, ◌∙◌, subst, Option, some, List, [], ◌∷◌, ◌++◌, map, append_assoc, append-nil,
}
use redis_clone_js.Prelude.Text.{Text}
use redis_clone_js.Parser.{Bytes, wait, parse_next}
use redis_clone_js.Parser.Messages.{Node, array_node_to_string_array}
use redis_clone_js.Parser.Reads.{Reads, stops, goes_on, Reads-Split, parse_buffer}
use redis_clone_js.Parser.Chunks.{feed-Reads}
use redis_clone_js.Parser.Encoded.{Utf8}
use redis_clone_js.Parser.RoundTrip.{bulk_strings-bulk_nodes}
use redis_clone_js.Parser.Logs.{Command, AllWellFormed, log_bytes, log_bytes-Reads, node_of}
use redis_clone_js.Server.Resume.{joined}
use redis_clone_js.Aof.{append_command, run_strings, run_messages, after_feed, load_and_replay}

-- The file after the commands were appended to it.
abbrev pub append_commands : Utf8 → Bytes → List Command → Bytes
append_commands u file [] = file
append_commands u file (c ∷ commands) = append_commands u (append_command u file c) commands

append_commands-log_bytes :
    (u : Utf8) (file : Bytes) (commands : List Command)
    → append_commands u file commands ≡ file ++ log_bytes u commands
unfolding log_bytes append_command
append_commands-log_bytes u file [] = sym (append-nil file)
append_commands-log_bytes u file (c ∷ commands) =
    append_commands-log_bytes u (append_command u file c) commands
    ∙ append_assoc file _ (log_bytes u commands)

module _ (decode : Bytes → Text) where
  Reads-left :
      (buffer : Bytes) (nodes : List Node) (left : Bytes)
      → Reads decode buffer nodes left
      → parse_buffer decode left ≡ wait
  Reads-left buffer nodes left (stops _ e) = e
  Reads-left buffer nodes left (goes_on _ node k nodes' _ e r) = Reads-left _ nodes' left r

  Reads-waiting :
      (buffer : Bytes) (nodes : List Node) (left : Bytes)
      → parse_buffer decode buffer ≡ wait
      → Reads decode buffer nodes left
      → nodes ≡ []
  Reads-waiting buffer nodes left waits (stops _ e) = refl
  Reads-waiting buffer nodes left waits (goes_on _ node k nodes' _ e r) = absurd (cc)

module _ {S : Type 0} (executor : Option Text → List (Option Text) → S → S) where
  run_messages-append :
      (first second : List Node) (s : S)
      → run_messages executor (first ++ second) s
        ≡ run_messages executor second (run_messages executor first s)
  unfolding run_messages
  run_messages-append [] second s = refl
  run_messages-append (node ∷ first) second s =
      run_messages-append first second (run_strings executor (array_node_to_string_array node) s)

  replay-Reads :
      (decode : Bytes → Text) (chunks : List Bytes) (buffer : Bytes) (nodes : List Node)
      (left : Bytes) (s : S)
      → parse_buffer decode buffer ≡ wait
      → Reads decode (buffer ++ joined chunks) nodes left
      → load_and_replay executor decode chunks buffer s ≡ some (run_messages executor nodes s)
  unfolding load_and_replay run_messages
  replay-Reads decode [] buffer nodes left s waits r =
      let r' = subst (λ b. Reads decode b nodes left) (append-nil buffer) r in
      ap (λ ns. some (run_messages executor ns s))
        (sym (Reads-waiting decode buffer nodes left waits r'))
  replay-Reads decode (chunk ∷ chunks) buffer nodes left s waits r =
      let cut = Reads-Split decode (buffer ++ chunk) (joined chunks) nodes left (
        subst (λ b. Reads decode b nodes left) (sym (append_assoc buffer chunk (joined chunks)))
          r) in
      ap (after_feed executor (load_and_replay executor decode chunks) s)
        (feed-Reads decode buffer chunk cut.first cut.between cut.reads_first)
      ∙ replay-Reads decode chunks cut.between cut.second left (run_messages executor cut.first s)
          (Reads-left decode (buffer ++ chunk) cut.first cut.between cut.reads_first)
          cut.reads_second
      ∙ ap some (
          sym (run_messages-append cut.first cut.second s)
          ∙ ap (λ ns. run_messages executor ns s) (sym cut.all))

  -- The commands one after the other, as a list of strings each.
  abbrev pub run_commands : List Command → S → S
  run_commands [] s = s
  run_commands (c ∷ commands) s = run_commands commands (run_strings executor (some c) s)

  run_messages-nodes :
      (commands : List Command) (s : S)
      → run_messages executor (map node_of commands) s ≡ run_commands commands s
  unfolding run_messages array_node_to_string_array
  run_messages-nodes [] s = refl
  run_messages-nodes (c ∷ commands) s =
      ap (λ o. run_messages executor (map node_of commands) (run_strings executor o s))
        (bulk_strings-bulk_nodes c)
      ∙ run_messages-nodes commands (run_strings executor (some c) s)

  -- The replay of a file that commands were appended to, in whatever chunks the file is read, comes to
  -- an end and executes exactly these commands, in their order; empty ones are passed over. The
  -- strings have no surrogate without its partner.
  pub load_and_replay-append_commands :
      (u : Utf8) (commands : List Command) (chunks : List Bytes) (s : S)
      → AllWellFormed commands
      → joined chunks ≡ append_commands u [] commands
      → load_and_replay executor u.decode chunks [] s ≡ some (run_commands commands s)
  load_and_replay-append_commands u commands chunks s h e =
      let whole =
        subst (λ b. Reads u.decode b (map node_of commands) [])
          (sym (e ∙ append_commands-log_bytes u [] commands)) (log_bytes-Reads u commands h) in
      replay-Reads u.decode chunks [] (map node_of commands) [] s (unfold parse_next in refl) whole
      ∙ ap some (run_messages-nodes commands s)
