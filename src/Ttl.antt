-- ===== src/Ttl.antt =====
-- src/core/DataStore.js: EXPIRE, TTL, PERSIST, PTTL, PEXPIRE, EXPIREAT, PEXPIREAT.
pub mod Consistent
pub mod Views
use redis_clone_js.Prelude.{ℕ, ◌+◌, ◌/◌, Option, none, some, List, [], ◌∷◌, if◌then◌else◌}
use redis_clone_js.Prelude.Text.{Text}
use redis_clone_js.Prelude.Int.{ℤ, pos, negsuc, ◌+ℤ◌, ◌-ℤ◌, ◌*ℤ◌, ltb_ℤ}
use redis_clone_js.Map
use redis_clone_js.Number.{parse_int}
use redis_clone_js.Cmd.{Cmd, pure, gets, modify, given, ◌>>=◌, ◌>>◌}
use redis_clone_js.Protocol.{encode_integer}
use redis_clone_js.Store.{
  Store, Entry, Handler, reply, fail, not_an_integer, remove, set_expiry, clear_expiry, get_entry,
}

-- Math.ceil(ms / 1000), for a positive number of milliseconds
unfoldable pub ceil_seconds : ℕ → ℕ
ceil_seconds ms = (ms + 999) / 1000

-- `rem <= 0 ? -2 : rem`, for the seconds that are left of `ms`
unfoldable pub seconds_left : ℤ → ℤ
unfolding ceil_seconds
seconds_left (pos ms) = if ltb_ℤ (pos 0) (pos ms) then pos (ceil_seconds ms) else negsuc 1
seconds_left (negsuc ms) = negsuc 1

-- `remMs <= 0 ? -2 : Math.ceil(remMs)`
unfoldable pub ms_left : ℤ → ℤ
ms_left ms = if ltb_ℤ (pos 0) ms then ms else negsuc 1

module _ {Score : Type 0} where
  unfoldable pub notify_expired : Text → Store Score → Store Score
  notify_expired key s = record s { events = key ∷ s.events }

  unfoldable pub expire : ℕ → List Text → Handler Score
  unfolding notify_expired
  expire now (key ∷ seconds_text ∷ []) = do
    entry ← get_entry now key
    given entry (reply (encode_integer (pos 0))) (λ _.
        given (parse_int seconds_text) not_an_integer (λ seconds.
          if ltb_ℤ (pos 0) seconds
          then (do
            modify (set_expiry key (pos now +ℤ seconds *ℤ pos 1000))
            reply (encode_integer (pos 1)))
          else (do
            modify (remove key)
            modify (notify_expired key)
            reply (encode_integer (pos 1)))))
  expire now _ = fail "wrong number of arguments for 'EXPIRE'"

  unfoldable pub ttl : ℕ → List Text → Handler Score
  unfolding seconds_left
  ttl now (key ∷ []) = do
    entry ← get_entry now key
    given entry (reply (encode_integer (negsuc 1))) (λ _. do
      exp ← gets (λ s. Map.get s.expires key)
      given exp (reply (encode_integer (negsuc 0)))
          (λ at. reply (encode_integer (seconds_left (at -ℤ pos now)))))
  ttl now _ = fail "wrong number of arguments for 'TTL'"

  unfoldable pub persist : ℕ → List Text → Handler Score
  persist now (key ∷ []) = do
    entry ← get_entry now key
    given entry (reply (encode_integer (pos 0))) (λ _. do
      timed ← gets (λ s. Map.has s.expires key)
      if timed
          then (do modify (clear_expiry key); reply (encode_integer (pos 1)))
          else reply (encode_integer (pos 0)))
  persist now _ = fail "wrong number of arguments for 'PERSIST'"

  unfoldable pub pttl : ℕ → List Text → Handler Score
  unfolding ms_left
  pttl now (key ∷ []) = do
    entry ← get_entry now key
    given entry (reply (encode_integer (negsuc 1))) (λ _. do
      exp ← gets (λ s. Map.get s.expires key)
      given exp (reply (encode_integer (negsuc 0)))
          (λ at. reply (encode_integer (ms_left (at -ℤ pos now)))))
  pttl now _ = fail "wrong number of arguments for 'PTTL'"

  unfoldable pub pexpire : ℕ → List Text → Handler Score
  pexpire now (key ∷ ms_text ∷ []) = do
    entry ← get_entry now key
    given entry (reply (encode_integer (pos 0))) (λ _.
        given (parse_int ms_text) not_an_integer (λ ms.
          if ltb_ℤ (pos 0) ms
          then (do modify (set_expiry key (pos now +ℤ ms)); reply (encode_integer (pos 1)))
          else do modify (remove key); reply (encode_integer (pos 1))))
  pexpire now _ = fail "wrong number of arguments for 'PEXPIRE'"

  unfoldable pub expireat : ℕ → List Text → Handler Score
  expireat now (key ∷ ts_text ∷ []) = do
    entry ← get_entry now key
    given entry (reply (encode_integer (pos 0))) (λ _.
        given (parse_int ts_text) not_an_integer
          (λ ts. do modify (set_expiry key (ts *ℤ pos 1000)); reply (encode_integer (pos 1))))
  expireat now _ = fail "wrong number of arguments for 'EXPIREAT'"

  unfoldable pub pexpireat : ℕ → List Text → Handler Score
  pexpireat now (key ∷ ts_text ∷ []) = do
    entry ← get_entry now key
    given entry (reply (encode_integer (pos 0))) (λ _.
        given (parse_int ts_text) not_an_integer
          (λ ts. do modify (set_expiry key ts); reply (encode_integer (pos 1))))
  pexpireat now _ = fail "wrong number of arguments for 'PEXPIREAT'"
