-- ===== src/Server/Backlog.antt =====
-- src/server/Server.js: the replication backlog, and what PSYNC sends from it.
use redis_clone_js.Prelude.{
  ℕ, ◌+◌, ◌-◌, ◌&&◌, Option, none, some, [], ◌∷◌, ◌++◌, length, drop, ltb, leb, ◌==◌, if◌then◌else◌,
}
use redis_clone_js.Prelude.Text.{Text, text_eq}
use redis_clone_js.Prelude.Int.{ℤ, pos, negsuc}
use redis_clone_js.Number.{parse_int}
use redis_clone_js.Parser.{Bytes}

-- replBacklogBuf, replicationOffset and replBacklogMaxBytes
pub record Backlog : Type 0 where
  pub buf : Bytes
  pub offset : ℕ
  pub max_bytes : ℕ

abbrev pub init_backlog : ℕ → Backlog
init_backlog max_bytes = record { buf = []; offset = 0; max_bytes = max_bytes }

-- The last `n` bytes.
unfoldable pub keep_last : ℕ → Bytes → Bytes
keep_last n buf = if ltb n (length buf) then drop (length buf - n) buf else buf

-- `_appendToBacklog`
unfoldable pub append_to_backlog : Backlog → Bytes → Backlog
unfolding keep_last
append_to_backlog b [] = b
append_to_backlog b (x ∷ chunk) = record b {
  buf = keep_last b.max_bytes (b.buf ++ (x ∷ chunk));
  offset = b.offset + length (x ∷ chunk);
}

-- `_replBacklogStartOffset`
unfoldable pub repl_backlog_start_offset : Backlog → ℕ
repl_backlog_start_offset b =
    if length b.buf == 0 then b.offset + 1 else b.offset - length b.buf + 1

-- What PSYNC answers: `full` for FULLRESYNC, or CONTINUE with the bytes that follow it.
pub data Sync : Type 0 where
  full : Sync
  continue : Bytes → Sync

-- The test of the wanted offset, for the identity of this server.
unfoldable pub sync_from : Backlog → Option ℤ → Sync
unfolding repl_backlog_start_offset
sync_from b none = full
sync_from b (some (negsuc n)) = full
sync_from b (some (pos want)) =
    if leb (repl_backlog_start_offset b - 1) want && leb want b.offset
    then continue (drop (want + 1 - repl_backlog_start_offset b) b.buf)
    else full

abbrev read_offset : Option Text → Option ℤ
read_offset none = none
read_offset (some t) = parse_int t

-- PSYNC of the arguments; an empty identity counts as none.
unfoldable pub psync : Text → Backlog → Option Text → Option Text → Sync
unfolding sync_from
psync run_id b none want = full
psync run_id b (some []) want = full
psync run_id b (some (c ∷ id)) want =
    if text_eq (c ∷ id) run_id then sync_from b (read_offset want) else full
