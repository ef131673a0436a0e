-- ===== src/Lists/Loss.antt =====
-- RPOPLPUSH to a key that holds no list.
use redis_clone_js.Prelude.{
  ℕ, ◌≡◌, refl, Bool, true, false, none, some, List, [], ◌∷◌, ◌++◌, arith, ◌∙◌,
}
use redis_clone_js.Prelude.Text.{Text, text_eq, text_eq_iff}
use redis_clone_js.Cmd.{throws, modify, ◌>>=◌}
use redis_clone_js.Cmd.Runs.{bind-returns}
use redis_clone_js.Store.{
  Store, Entry, arr, list, as_arr, put, purge_if_expired, or_throws, ensure_list, get_or_init_list,
  ensured,
}
use redis_clone_js.Store.View.{view, view-put, purge_if_expired-SameView}
use redis_clone_js.Store.Looks.{ensure-found, get_or_init-found}
use redis_clone_js.Lists.{pop, write_list}
use redis_clone_js.Keyspace.{null}
use redis_clone_js.Lists.Laws.{pop-append}
use redis_clone_js.Lists.Queue.{list_entry, view-pushed}
use redis_clone_js.Lists.Moves.{rpoplpush, transfer, push_to}

module _ {Score : Type 0} where
  push_to-throws :
      (now : ℕ) (dst : Text) (at_head : Bool) (v : Text) (e : Entry Score) (s : Store Score)
      → view now s dst ≡ some e
      → as_arr e.value ≡ none
      → push_to now dst at_head v s ≡ (throws, purge_if_expired now dst s)
  unfolding push_to get_or_init_list or_throws ◌>>=◌
  push_to-throws now dst at_head v e s there other =
      bind-returns (get_or_init_list now dst) _ (get_or_init-found _ e now dst s there)
      ∙ rw other refl

  rpoplpush-eq :
      (now : ℕ) (src dst v : Text) (l : List Text) (s : Store Score)
      → view now s src ≡ some (list_entry (l ++ v ∷ []))
      → rpoplpush now (src ∷ dst ∷ []) s
        ≡ push_to now dst true v (put src (list_entry l) (purge_if_expired now src s))
  unfolding rpoplpush ensure_list ensured transfer write_list ◌>>=◌ modify
  rpoplpush-eq now src dst v l s there =
      bind-returns (ensure_list now src)
        (λ entry. ensured entry null (λ l. transfer now src dst true (pop l)))
        (ensure-found list as_arr now src s (arr (l ++ v ∷ [])) (l ++ v ∷ []) there refl)
      ∙ rw (pop-append l v) refl

  other_key :
      (now : ℕ) (src dst : Text) (l : List Text) (e : Entry Score) (s : Store Score)
      → view now s src ≡ some (list_entry l)
      → view now s dst ≡ some e
      → as_arr e.value ≡ none
      → text_eq src dst ≡ false
  other_key now src dst l e s there target other = ground (arith, text_eq_iff src dst)

  -- RPOPLPUSH from a list with a last element to a key that shows an entry without a list throws,
  -- and the element is gone: the source shows the list without it.
  pub rpoplpush-loses_element :
      (now : ℕ) (src dst v : Text) (l : List Text) (e : Entry Score) (s : Store Score)
      → view now s src ≡ some (list_entry (l ++ v ∷ []))
      → view now s dst ≡ some e
      → as_arr e.value ≡ none
      → ((rpoplpush now (src ∷ dst ∷ []) s).0 ≡ throws)
        × (view now (rpoplpush now (src ∷ dst ∷ []) s).1 src ≡ some (list_entry l))
  rpoplpush-loses_element now src dst v l e s there target other =
      let s' = put src (list_entry l) (purge_if_expired now src s) in
      let apart = other_key now src dst (l ++ v ∷ []) e s there target other in
      let seen : view now s' dst ≡ some e =
        view-put now src dst (list_entry l) (purge_if_expired now src s)
        ∙ rw apart ((purge_if_expired-SameView now src s).views now dst (omega arith) ∙ target) in
      rw (rpoplpush-eq now src dst v l s there) (
        rw (push_to-throws now dst true v e s' seen other) (
          refl,
          (purge_if_expired-SameView now dst s').views now src (omega arith)
              ∙ view-pushed now src (l ++ v ∷ []) l s there,
        ))
