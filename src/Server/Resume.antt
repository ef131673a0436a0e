-- ===== src/Server/Resume.antt =====
-- src/server/Server.js: what a replica gets from the backlog, against the stream of all payloads.
use redis_clone_js.Prelude.{
  ℕ, zero, suc, ◌+◌, ◌-◌, ◌≤◌, ◌≡◌, refl, ap, sym, ◌∙◌, subst, ◌&&◌, some, List, [], ◌∷◌, ◌++◌,
  arith, length, drop, ltb, leb, if◌then◌else◌, min, length-append, length-drop, append-nil,
  append_assoc, Bool-cases, inl, inr,
}
use redis_clone_js.Prelude.Int.{pos}
use redis_clone_js.Parser.{Bytes}
use redis_clone_js.Parser.Extend.{drop-append}
use redis_clone_js.Server.Backlog.{
  Backlog, init_backlog, keep_last, append_to_backlog, repl_backlog_start_offset, Sync, continue,
  full, sync_from,
}

-- All the payloads, one behind the other.
abbrev pub joined : List Bytes → Bytes
joined [] = []
joined (p ∷ payloads) = p ++ joined payloads

abbrev pub append_all : Backlog → List Bytes → Backlog
append_all b [] = b
append_all b (p ∷ payloads) = append_all (append_to_backlog b p) payloads

-- The backlog after the bytes of `stream`: it holds the last of them.
pub record Holds (max_bytes : ℕ) (stream : Bytes) (b : Backlog) : Type 0 where
  pub offset : b.offset ≡ length stream
  pub size : length b.buf ≡ min max_bytes (length stream)
  pub last : b.buf ≡ drop (length stream - length b.buf) stream
  pub limit : b.max_bytes ≡ max_bytes

drop-nil : {A : Type 0} (n : ℕ) → Path (List A) (drop n []) []
drop-nil zero = refl
drop-nil (suc n) = refl

drop-drop : {A : Type 0} (m n : ℕ) (xs : List A) → drop m (drop n xs) ≡ drop (n + m) xs
drop-drop m zero xs = let same : m ≡ zero + m = omega arith in ap (λ k. drop k xs) same
drop-drop m (suc n) [] = drop-nil m ∙ sym (drop-nil (suc n + m))
drop-drop m (suc n) (x ∷ xs) =
    drop-drop m n xs
    ∙ (let same : suc (n + m) ≡ suc n + m = omega arith in ap (λ k. drop k (x ∷ xs)) same)

keep_last-drop : (n : ℕ) (s : Bytes) → keep_last n s ≡ drop (length s - n) s
unfolding keep_last
keep_last-drop n s = elim (Bool-cases (ltb n (length s))) [
  | inl long ↦ rw long refl
  | inr short ↦ let nothing : length s - n ≡ 0 = ground arith in rw short (rw nothing refl)
]

append_to_backlog-Holds :
    {max_bytes : ℕ} (stream p : Bytes) (b : Backlog)
    → Holds max_bytes stream b
    → Holds max_bytes (stream ++ p) (append_to_backlog b p)
unfolding append_to_backlog
append_to_backlog-Holds {max_bytes = max_bytes} stream [] b h =
    subst (λ s. Holds max_bytes s b) (sym (append-nil stream)) h
append_to_backlog-Holds stream (x ∷ p) b h =
    let q : Bytes = x ∷ p in
    let kept = keep_last-drop b.max_bytes (b.buf ++ q) in
    let size = ap length kept ∙ length-drop (length (b.buf ++ q) - b.max_bytes) (b.buf ++ q) in
    let both = length-append b.buf q in
    let all = length-append stream q in
    let from = length stream - length b.buf in
    record {
      offset = omega (arith, h.offset, all);
      size = omega (arith, size, both, all, h.size, h.limit);
      last =
          kept
          ∙ ap (λ s. drop (length (b.buf ++ q) - b.max_bytes) (s ++ q)) h.last
          ∙ ap (drop (length (b.buf ++ q) - b.max_bytes))
              (sym (drop-append from stream q (omega (arith, h.size))))
          ∙ drop-drop (length (b.buf ++ q) - b.max_bytes) from (stream ++ q)
          ∙ ap (λ n. drop n (stream ++ q)) (omega (arith, size, both, all, h.size, h.limit));
      limit = h.limit;
    }

init_backlog-Holds : (max_bytes : ℕ) → Holds max_bytes [] (init_backlog max_bytes)
init_backlog-Holds max_bytes = record {
  offset = refl;
  size = omega arith;
  last = refl;
  limit = refl;
}

append_all-Holds :
    {max_bytes : ℕ} (payloads : List Bytes) (stream : Bytes) (b : Backlog)
    → Holds max_bytes stream b
    → Holds max_bytes (stream ++ joined payloads) (append_all b payloads)
append_all-Holds {max_bytes = max_bytes} [] stream b h =
    subst (λ s. Holds max_bytes s b) (sym (append-nil stream)) h
append_all-Holds {max_bytes = max_bytes} (p ∷ payloads) stream b h =
    subst (λ s. Holds max_bytes s (append_all (append_to_backlog b p) payloads))
      (append_assoc stream p (joined payloads))
      (append_all-Holds payloads (stream ++ p) (append_to_backlog b p)
        (append_to_backlog-Holds stream p b h))

start_offset-Holds :
    {max_bytes : ℕ} (stream : Bytes) (b : Backlog)
    → Holds max_bytes stream b
    → repl_backlog_start_offset b ≡ length stream - min max_bytes (length stream) + 1
unfolding repl_backlog_start_offset
start_offset-Holds stream b h = ground (arith, h.offset, h.size)

-- The answer to an offset, from the stream.
abbrev pub sync_of_stream : ℕ → Bytes → ℕ → Sync
sync_of_stream max_bytes stream want =
    if leb want (length stream) && leb (length stream) (want + max_bytes)
    then continue (drop want stream)
    else full

wanted-Holds :
    {max_bytes : ℕ} (stream : Bytes) (b : Backlog) (want : ℕ)
    → Holds max_bytes stream b
    → want ≤ length stream
    → length stream ≤ want + max_bytes
    → drop (want + 1 - repl_backlog_start_offset b) b.buf ≡ drop want stream
wanted-Holds stream b want h known kept =
    let start = start_offset-Holds stream b h in
    let skip = want + 1 - repl_backlog_start_offset b in
    let from = length stream - length b.buf in
    let whole : from + skip ≡ want = omega (arith, start, h.size) in
    ap (drop skip) h.last ∙ drop-drop skip from stream ∙ ap (λ n. drop n stream) whole

sync_from-Holds :
    {max_bytes : ℕ} (stream : Bytes) (b : Backlog) (want : ℕ)
    → Holds max_bytes stream b
    → sync_from b (some (pos want)) ≡ sync_of_stream max_bytes stream want
unfolding sync_from
sync_from-Holds {max_bytes = max_bytes} stream b want h =
    ground (arith, start_offset-Holds stream b h, h.offset, wanted-Holds stream b want h)

-- PSYNC with an offset `want` answers from the stream of all payloads that were appended, whatever
-- they were: a replica that has seen no more than the stream, and lacks no more than the size of the
-- backlog, gets exactly the bytes behind the first `want`; every other one gets a full
-- synchronisation.
pub append_to_backlog-sync_from :
    (max_bytes want : ℕ) (payloads : List Bytes)
    → sync_from (append_all (init_backlog max_bytes) payloads) (some (pos want))
      ≡ sync_of_stream max_bytes (joined payloads) want
append_to_backlog-sync_from max_bytes want payloads =
    sync_from-Holds (joined payloads) (append_all (init_backlog max_bytes) payloads) want
      (append_all-Holds payloads [] (init_backlog max_bytes) (init_backlog-Holds max_bytes))
