-- ===== src/Ttl/Views.antt =====
-- EXPIRE and TTL, by what a client can see of the store.
use redis_clone_js.Prelude.{
  ℕ, ◌+◌, ◌-◌, ◌*◌, ltb, ◌≤◌, ◌<◌, ◌≡◌, refl, Bool, true, false, Option, none, some, [], ◌∷◌, arith,
  if◌then◌else◌, Bool-cases, inl, inr, ap, sym, ◌∙◌,
}
use redis_clone_js.Prelude.Text.{Text, text_eq, text_eq_iff, text_eq_refl}
use redis_clone_js.Prelude.Int.{ℤ, pos, negsuc, ◌+ℤ◌, ◌-ℤ◌, ◌*ℤ◌, ltb_ℤ}
use redis_clone_js.Map
use redis_clone_js.Map.Laws.{get-delete, get-set, get-set_self, is_some}
use redis_clone_js.Number.{parse_int}
use redis_clone_js.Cmd.{returns, ◌>>=◌, modify, given, gets}
use redis_clone_js.Cmd.Runs.{bind-returns}
use redis_clone_js.Protocol.{encode_integer}
use redis_clone_js.Store.{Store, Entry, is_due, remove, set_expiry, purge_if_expired, get_entry}
use redis_clone_js.Store.View.{SameView, view, deadline, purge_if_expired-SameView}
use redis_clone_js.Ttl.{expire, ttl, notify_expired, seconds_left, ceil_seconds}
use redis_clone_js.Store.Looks.{get_entry-eq-view, expires-purge_if_expired}

abbrev ttl_value : ℕ → Bool → Option ℤ → ℤ
ttl_value now false d = negsuc 1
ttl_value now true none = negsuc 0
ttl_value now true (some at) = seconds_left (at -ℤ pos now)

-- The reply of TTL, for whether an entry is seen and for its deadline.
abbrev pub HasSecondsLeft : ℕ → Bool → Option ℤ → ℤ → Type 0
HasSecondsLeft now false d r = r ≡ negsuc 1
HasSecondsLeft now true none r = r ≡ negsuc 0
HasSecondsLeft now true (some (pos at)) r =
    (k : ℕ) × (r ≡ pos k) × (at ≤ now + k * 1000) × (now + k * 1000 < at + 1000)
HasSecondsLeft now true (some (negsuc at)) r = ⊥

ceil_seconds-bounds :
    (ms : ℕ) → (ms ≤ ceil_seconds ms * 1000) × (ceil_seconds ms * 1000 < ms + 1000)
unfolding ceil_seconds
ceil_seconds-bounds ms = (omega arith, omega arith)

-- A deadline that is seen lies ahead.
deadline-live : (now : ℕ) (o : Option ℤ) → is_due now (if is_due now o then none else o) ≡ false
unfolding is_due
deadline-live now none = refl
deadline-live now (some (pos at)) = ground arith
deadline-live now (some (negsuc at)) = ground arith

ttl_value-HasSecondsLeft :
    (now : ℕ) (seen : Bool) (d : Option ℤ)
    → is_due now d ≡ false
    → HasSecondsLeft now seen d (ttl_value now seen d)
unfolding is_due seconds_left ◌-ℤ◌
ttl_value-HasSecondsLeft now false d h = refl
ttl_value-HasSecondsLeft now true none h = refl
ttl_value-HasSecondsLeft now true (some (pos at)) h =
    let (enough, close) = ceil_seconds-bounds (at - now) in
    (ceil_seconds (at - now), ground arith, ground arith, ground arith)
ttl_value-HasSecondsLeft now true (some (negsuc at)) h = absurd (ground arith)

seconds_left-eq :
    (t : ℕ) (at : ℤ) → is_due t (some at) ≡ true → seconds_left (at -ℤ pos t) ≡ negsuc 1
unfolding seconds_left is_due ◌-ℤ◌
seconds_left-eq t at h = ground arith

seconds_left-HasSecondsLeft :
    (t at : ℕ) → HasSecondsLeft t (ltb t at) (some (pos at)) (seconds_left (pos at -ℤ pos t))
unfolding is_due
seconds_left-HasSecondsLeft t at = elim (Bool-cases (ltb t at)) [
  | inl ahead ↦ rw ahead (ttl_value-HasSecondsLeft t true (some (pos at)) (ground arith))
  | inr past ↦ rw past (seconds_left-eq t (pos at) (ground arith))
]

module _ {Score : Type 0} where
  -- The store that EXPIRE leaves, from the number of seconds.
  abbrev expired_at : ℕ → Text → ℤ → Store Score → Store Score
  expired_at now key n s =
      if ltb_ℤ (pos 0) n
      then set_expiry key (pos now +ℤ n *ℤ pos 1000) s
      else notify_expired key (remove key s)

  expire-eq :
      (now : ℕ) (key seconds_text : Text) (n : ℤ) (e : Entry Score) (s : Store Score)
      → parse_int seconds_text ≡ some n
      → view now s key ≡ some e
      → expire now (key ∷ seconds_text ∷ []) s
        ≡ (returns (encode_integer (pos 1)), expired_at now key n (purge_if_expired now key s))
  unfolding expire ◌>>=◌ modify given
  expire-eq now key seconds_text n e s good there =
      bind-returns (get_entry now key) _ (get_entry-eq-view now key s)
      ∙ rw there (rw good (ground arith))

  view-expired_at :
      (t now : ℕ) (key k : Text) (n : ℤ) (s : Store Score)
      → view t (expired_at now key n s) k ≡ (
          if text_eq key k
          then (if ltb_ℤ (pos 0) n
              then (if is_due t (some (pos now +ℤ n *ℤ pos 1000)) then none else Map.get s.kv k)
              else none)
          else view t s k)
  unfolding set_expiry notify_expired remove
  view-expired_at t now key k n s = ground (
    arith,
    get-delete s.kv key k,
    get-delete s.expires key k,
    get-set s.expires key k (pos now +ℤ n *ℤ pos 1000),
  )

  kv-view :
      (now : ℕ) (key : Text) (e : Entry Score) (s : Store Score)
      → view now s key ≡ some e
      → Map.get s.kv key ≡ some e
  kv-view now key e s h = ground arith

  -- EXPIRE with a good number on a key that the client sees replies 1. From then on the key shows its
  -- entry up to the new deadline and nothing after it, or nothing at all if the number is not
  -- positive; the other keys show what they showed.
  pub expire-view :
      (now t : ℕ) (key seconds_text k : Text) (n : ℤ) (e : Entry Score) (s : Store Score)
      → now ≤ t
      → parse_int seconds_text ≡ some n
      → view now s key ≡ some e
      → ((expire now (key ∷ seconds_text ∷ []) s).0 ≡ returns (encode_integer (pos 1)))
        × (view t (expire now (key ∷ seconds_text ∷ []) s).1 k ≡ (
            if text_eq key k
            then (if ltb_ℤ (pos 0) n
                then (if is_due t (some (pos now +ℤ n *ℤ pos 1000)) then none else some e)
                else none)
            else view t s k))
  expire-view now t key seconds_text k n e s h good there =
      let same = purge_if_expired-SameView now key s in
      rw (expire-eq now key seconds_text n e s good there) (
        refl,
        ground (
          arith,
          view-expired_at t now key k n (purge_if_expired now key s),
          text_eq_iff key k,
          same.views t k h,
          kv-view now key e (purge_if_expired now key s) (same.views now key (omega arith) ∙ there),
        ),
      )

  -- TTL, with the reply in the model's own terms.
  ttl-eq :
      (now : ℕ) (key : Text) (s : Store Score)
      → ttl now (key ∷ []) s ≡ (
        returns (encode_integer (ttl_value now (is_some (view now s key)) (deadline now s key))),
        purge_if_expired now key s,
      )
  unfolding ttl ◌>>=◌ given gets
  ttl-eq now key s =
      bind-returns (get_entry now key) _ (get_entry-eq-view now key s)
      ∙ rw (sym (expires-purge_if_expired now key s)) (ground arith)

  -- TTL by what the client sees: -2 where it sees no entry, -1 for an entry without a deadline, and
  -- otherwise the whole seconds that reach the deadline, and no second more; and afterwards it sees,
  -- at every later time, what it would have seen without the command.
  pub ttl-HasSecondsLeft :
      (now : ℕ) (key : Text) (s : Store Score)
      → (r : ℤ) × ((ttl now (key ∷ []) s).0 ≡ returns (encode_integer r))
        × HasSecondsLeft now (is_some (view now s key)) (deadline now s key) r
        × SameView now (ttl now (key ∷ []) s).1 s
  ttl-HasSecondsLeft now key s = rw (ttl-eq now key s) (
    ttl_value now (is_some (view now s key)) (deadline now s key),
    refl,
    ttl_value-HasSecondsLeft now (is_some (view now s key)) (deadline now s key)
        (deadline-live now (Map.get s.expires key)),
    purge_if_expired-SameView now key s,
  )

  deadline-expired_at :
      (t now : ℕ) (key : Text) (n : ℤ) (s : Store Score)
      → ltb_ℤ (pos 0) n ≡ true
      → deadline t (expired_at now key n s) key ≡ (
          if is_due t (some (pos now +ℤ n *ℤ pos 1000))
          then none
          else some (pos now +ℤ n *ℤ pos 1000))
  unfolding set_expiry
  deadline-expired_at t now key n s h =
      rw h (rw (get-set_self s.expires key (pos now +ℤ n *ℤ pos 1000)) refl)

  -- TTL after EXPIRE, in the model's own terms.
  ttl-expire_eq :
      (now t : ℕ) (key seconds_text : Text) (n : ℤ) (e : Entry Score) (s : Store Score)
      → now ≤ t
      → parse_int seconds_text ≡ some n
      → ltb_ℤ (pos 0) n ≡ true
      → view now s key ≡ some e
      → (ttl t (key ∷ []) (expire now (key ∷ seconds_text ∷ []) s).1).0
        ≡ returns (encode_integer (seconds_left (pos now +ℤ n *ℤ pos 1000 -ℤ pos t)))
  ttl-expire_eq now t key seconds_text n e s h good positive there =
      let at = pos now +ℤ n *ℤ pos 1000 in
      let s' = purge_if_expired now key s in
      rw (expire-eq now key seconds_text n e s good there) (
        rw (ttl-eq t key (expired_at now key n s')) (
          rw
            (
              view-expired_at t now key key n s',
              deadline-expired_at t now key n s' positive,
              positive,
              text_eq_refl key,
              kv-view now key e s'
                  ((purge_if_expired-SameView now key s).views now key (omega arith) ∙ there),
            )
            (elim (Bool-cases (is_due t (some at))) [
              | inl due ↦
                  rw due (ap (λ v. returns (encode_integer v)) (sym (seconds_left-eq t at due)))
              | inr live ↦ rw live refl
            ])))

  -- After EXPIRE with n > 0 seconds on a key that the client sees, TTL replies at each time from then
  -- on, while the deadline at 1000 n milliseconds is ahead, with the whole seconds that reach the
  -- deadline and no second more, and with -2 from the deadline on.
  pub ttl-expire :
      (now t n : ℕ) (key seconds_text : Text) (e : Entry Score) (s : Store Score)
      → now ≤ t
      → 0 < n
      → parse_int seconds_text ≡ some (pos n)
      → view now s key ≡ some e
      → (r : ℤ) × ((ttl t (key ∷ []) (expire now (key ∷ seconds_text ∷ []) s).1).0
          ≡ returns (encode_integer r))
        × HasSecondsLeft t (ltb t (now + n * 1000)) (some (pos (now + n * 1000))) r
  unfolding ◌+ℤ◌ ◌*ℤ◌
  ttl-expire now t n key seconds_text e s h positive good there = (
    seconds_left (pos (now + n * 1000) -ℤ pos t),
    ttl-expire_eq now t key seconds_text (pos n) e s h good (ground arith) there
        ∙ ap (λ at. returns (encode_integer (seconds_left (at -ℤ pos t)))) (ground arith),
    seconds_left-HasSecondsLeft t (now + n * 1000),
  )
