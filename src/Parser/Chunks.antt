-- ===== src/Parser/Chunks.antt =====
-- src/core/protocol.js: `feed` on bytes that are cut into chunks.
use redis_clone_js.Prelude.{
  suc, ◌≡◌, refl, ap, sym, ◌∙◌, subst, true, List, [], ◌∷◌, ◌++◌, arith, length, append_assoc,
}
use redis_clone_js.Prelude.Text.{Text}
use redis_clone_js.Parser.Messages.{Node}
use redis_clone_js.Parser.{Bytes}
use redis_clone_js.Parser.Lengths.{lengths_fit}
use redis_clone_js.Parser.Reads.{Reads, Reads-Split, feed_loop-Reads, reads_of}
use redis_clone_js.Parser.Feed.{Fed, fed, unfinished, cons_message, feed}

-- More input, fed into the buffer that is left.
abbrev pub add_messages : List Node → Fed → Fed
add_messages [] r = r
add_messages (node ∷ nodes) r = cons_message node (add_messages nodes r)

abbrev pub and_feed : Fed → (Bytes → Fed) → Fed
and_feed (fed nodes buffer) next = add_messages nodes (next buffer)
and_feed unfinished next = unfinished
and_feed Fed.astray next = Fed.astray

add_messages-fed :
    (first second : List Node) (left : Bytes)
    → add_messages first (fed second left) ≡ fed (first ++ second) left
add_messages-fed [] second left = refl
add_messages-fed (node ∷ first) second left =
    ap (cons_message node) (add_messages-fed first second left)

-- `feed` gives what the old buffer and the chunk read as.
pub feed-Reads :
    (decode : Bytes → Text) (buffer chunk : Bytes) (nodes : List Node) (left : Bytes)
    → Reads decode (buffer ++ chunk) nodes left
    → feed decode buffer chunk ≡ fed nodes left
unfolding feed
feed-Reads decode buffer chunk nodes left r =
    feed_loop-Reads decode (suc (length (buffer ++ chunk))) (buffer ++ chunk) nodes left
      (omega arith) r

-- Bytes that come in two chunks give the messages, and leave the buffer, that they give in one
-- chunk, whatever the decoder of the bytes and wherever the cut is, if no bulk length in them is
-- below -1.
pub feed-append :
    (decode : Bytes → Text) (buffer a b : Bytes)
    → lengths_fit decode (buffer ++ (a ++ b)) ≡ true
    → feed decode buffer (a ++ b) ≡ and_feed (feed decode buffer a) (λ left. feed decode left b)
feed-append decode buffer a b h =
    let whole = append_assoc buffer a b in
    let (nodes, left, r) = reads_of decode (buffer ++ (a ++ b)) h in
    let s =
      Reads-Split decode (buffer ++ a) b nodes left
        (subst (λ x. Reads decode x nodes left) (sym whole) r) in
    feed-Reads decode buffer (a ++ b) nodes left r
    ∙ ap (λ x. fed x left) s.all
    ∙ sym (add_messages-fed s.first s.second left)
    ∙ ap (add_messages s.first) (sym (feed-Reads decode s.between b s.second left s.reads_second))
    ∙ ap (λ x. and_feed x (λ left. feed decode left b))
        (sym (feed-Reads decode buffer a s.first s.between s.reads_first))

-- A chunk in which no bulk length is below -1, behind such a buffer, is parsed to an end: `feed`
-- returns messages and a buffer.
pub feed-ends :
    (decode : Bytes → Text) (buffer chunk : Bytes)
    → lengths_fit decode (buffer ++ chunk) ≡ true
    → (nodes : List Node) × (left : Bytes) × (feed decode buffer chunk ≡ fed nodes left)
feed-ends decode buffer chunk h =
    let (nodes, left, r) = reads_of decode (buffer ++ chunk) h in
    (nodes, left, feed-Reads decode buffer chunk nodes left r)
