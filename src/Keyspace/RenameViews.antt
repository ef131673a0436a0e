-- ===== src/Keyspace/RenameViews.antt =====
-- RENAME, by what a client can see of the store.
use redis_clone_js.Prelude.{
  ℕ, ◌≤◌, ◌≡◌, Option, none, some, [], ◌∷◌, arith, if◌then◌else◌, Option-cases, inl, inr, ◌∙◌,
}
use redis_clone_js.Prelude.Text.{Text, text, text_eq}
use redis_clone_js.Map
use redis_clone_js.Map.Laws.{get-delete, get-set, is_some}
use redis_clone_js.Cmd.{Outcome, returns, ◌>>=◌, modify, given}
use redis_clone_js.Cmd.Runs.{bind-returns}
use redis_clone_js.Protocol.{encode_error, encode_simple_string}
use redis_clone_js.Store.{
  Store, Entry, is_due, remove, put, set_expiry, clear_expiry, purge_if_expired, get_entry,
}
use redis_clone_js.Store.View.{view, purge_if_expired-SameView}
use redis_clone_js.Keyspace.{move_entry, rename}
use redis_clone_js.Store.Looks.{get_entry-eq-view}

module _ {Score : Type 0} where
  move_entry-view :
      (t : ℕ) (src dst k : Text) (e : Entry Score) (s : Store Score)
      → view t (move_entry src dst e s) k ≡ (
          if text_eq src k
          then none
          else if text_eq dst k
          then (if is_due t (Map.get s.expires src) then none else some e)
          else view t s k)
  unfolding move_entry set_expiry clear_expiry remove put is_due
  move_entry-view t src dst k e s = elim (Option-cases (Map.get s.expires src)) [
    | inl absent ↦
        rw (absent, move_entry)
          (ground (
            arith,
            get-delete (Map.set s.kv dst e) src k,
            get-set s.kv dst k e,
            get-delete (Map.delete s.expires dst) src k,
            get-delete s.expires dst k,
          ))
    | inr (exp, timed) ↦
        rw (timed, move_entry)
          (ground (
            arith,
            get-delete (Map.set s.kv dst e) src k,
            get-set s.kv dst k e,
            get-delete (Map.set s.expires dst exp) src k,
            get-set s.expires dst k exp,
          ))
  ]

  abbrev rename_result :
      Text → Text → Option (Entry Score) → Store Score → Outcome Text × Store Score
  rename_result src dst none s = (returns (encode_error (text "no such key")), s)
  rename_result src dst (some e) s =
      (returns (encode_simple_string (text "OK")), move_entry src dst e s)

  rename-eq :
      (now : ℕ) (src dst : Text) (s : Store Score)
      → rename now (src ∷ dst ∷ []) s
        ≡ rename_result src dst (view now s src) (purge_if_expired now src s)
  unfolding rename ◌>>=◌ modify given
  rename-eq now src dst s =
      bind-returns (get_entry now src) _ (get_entry-eq-view now src s) ∙ ground arith

  view-source :
      (now t : ℕ) (src : Text) (e : Entry Score) (s : Store Score)
      → view now s src ≡ some e
      → (if is_due t (Map.get s.expires src) then none else some e) ≡ view t s src
  view-source now t src e s h = ground arith

  -- After RENAME, from the command's time on: if the client saw an entry under `src`, then `src`
  -- shows nothing, whatever `dst` is, another `dst` shows what `src` showed before, at each time, and
  -- the other keys show what they showed; if `src` showed nothing, nothing changes.
  pub rename-view :
      (now t : ℕ) (src dst k : Text) (s : Store Score)
      → now ≤ t
      → view t (rename now (src ∷ dst ∷ []) s).1 k ≡ (
          if is_some (view now s src)
          then (if text_eq src k then none else if text_eq dst k then view t s src else view t s k)
          else view t s k)
  rename-view now t src dst k s h =
      let same = purge_if_expired-SameView now src s in
      rw (rename-eq now src dst s) (elim (Option-cases (view now s src)) [
        | inl absent ↦ rw absent (same.views t k h)
        | inr (e, there) ↦ rw there (
            ground (
              arith,
              move_entry-view t src dst k e (purge_if_expired now src s),
              view-source now t src e (purge_if_expired now src s)
                  (same.views now src (omega arith) ∙ there),
              same.views t k h,
              same.views t src h,
            ))
      ])
