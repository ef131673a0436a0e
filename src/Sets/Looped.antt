-- ===== src/Sets/Looped.antt =====
-- src/core/DataStore.js: the loops of SUNION and SDIFF over their keys, by what a client can see.
use redis_clone_js.Prelude.{
  ℕ, ◌≡◌, refl, ap, sym, ◌∙◌, subst, false, ◌||◌, Bool, Option, none, some, List, [], ◌∷◌, map,
  arith,
}
use redis_clone_js.Prelude.Text.{Text}
use redis_clone_js.SetOf
use redis_clone_js.Cmd.{Cmd, Outcome, returns, pure, ◌>>=◌, given}
use redis_clone_js.Cmd.Runs.{bind-returns}
use redis_clone_js.Protocol.{encode_array_of_bulk_strings}
use redis_clone_js.Store.{
  Store, Entry, Ensured, set, members, ensure_set, purge_if_expired, as_members, classify,
  or_unmodelled,
}
use redis_clone_js.Store.View.{view, SameView, purge_if_expired-SameView}
use redis_clone_js.Store.Looks.{ensure-eq}
use redis_clone_js.Sets.Algebra.{next_set, members_reply}

abbrev pub in_any : List (List Text) → Text → Bool
in_any [] v = false
in_any (l ∷ ls) v = SetOf.has l v || in_any ls v

module _ {Score : Type 0} where
  -- The set with these members, or no entry, which counts as the empty set.
  abbrev pub ShowsSet : Option (Entry Score) → List Text → Type 0
  ShowsSet none l = l ≡ []
  ShowsSet (some e) l = e ≡ record { type = set; value = members l }

  abbrev pub AllShowSets : (Text → Option (Entry Score)) → List Text → List (List Text) → Type 0
  AllShowSets seen [] [] = Unit
  AllShowSets seen [] (l ∷ ls) = ⊥
  AllShowSets seen (k ∷ ks) [] = ⊥
  AllShowSets seen (k ∷ ks) (l ∷ ls) = ShowsSet (seen k) l × AllShowSets seen ks ls

  AllShowSets-same :
      (seen other : Text → Option (Entry Score)) (ks : List Text) (ls : List (List Text))
      → ((k : Text) → seen k ≡ other k)
      → AllShowSets seen ks ls
      → AllShowSets other ks ls
  AllShowSets-same seen other [] [] same h = tt
  AllShowSets-same seen other [] (l ∷ ls) same h = elim h [ ]
  AllShowSets-same seen other (k ∷ ks) [] same h = elim h [ ]
  AllShowSets-same seen other (k ∷ ks) (l ∷ ls) same h =
      (subst (λ o. ShowsSet o l) (same k) h.0, AllShowSets-same seen other ks ls same h.1)

  next_set-classify :
      (o : Option (Entry Score)) (l : List Text)
      (go_on : List Text → Cmd (Store Score) (Option (List Text))) (s s' : Store Score)
      (look : Cmd (Store Score) (Ensured (List Text)))
      → look s ≡ classify set as_members o s'
      → ShowsSet o l
      → (look >>= λ e. next_set e go_on) s ≡ go_on l s'
  unfolding next_set classify or_unmodelled pure
  next_set-classify none l go_on s s' look e h =
      bind-returns look (λ e. next_set e go_on) e ∙ ap (λ x. go_on x s') (sym h)
  next_set-classify (some entry) l go_on s s' look e h =
      bind-returns look (λ e. next_set e go_on)
        (e ∙ ap (λ x. classify set as_members (some x) s') h)

  -- One key of SDIFF.
  ensure_set-next_set :
      (now : ℕ) (k : Text) (l : List Text)
      (go_on : List Text → Cmd (Store Score) (Option (List Text))) (s : Store Score)
      → ShowsSet (view now s k) l
      → (ensure_set now k >>= λ e. next_set e go_on) s ≡ go_on l (purge_if_expired now k s)
  unfolding ensure_set
  ensure_set-next_set now k l go_on s h =
      next_set-classify (view now s k) l go_on s (purge_if_expired now k s) (ensure_set now k)
        (ensure-eq set as_members now k s) h

  -- A loop over the keys that ends with a set, by the members of the set.
  pub record Looped (now : ℕ) (has_member : Text → Bool) (s : Store Score)
      (r : Outcome (Option (List Text)) × Store Score) : Type 0 where
    pub left : List Text
    pub after : Store Score
    pub ends : r ≡ (returns (some left), after)
    pub members_left : (v : Text) → SetOf.has left v ≡ has_member v
    pub unseen : SameView now after s

  pub Looped-done :
      (now : ℕ) (acc : List Text) (has_member : Text → Bool) (s : Store Score)
      → ((v : Text) → SetOf.has acc v ≡ has_member v)
      → Looped now has_member s (returns (some acc), s)
  Looped-done now acc has_member s h = record {
    left = acc;
    after = s;
    ends = refl;
    members_left = h;
    unseen = record { views = λ t k h. refl; deadlines = λ t k h. refl };
  }

  -- The first key of a loop, and the others behind it.
  pub Looped-next :
      (now : ℕ) (k : Text) (l : List Text)
      (go_on : List Text → Cmd (Store Score) (Option (List Text)))
      (has_member later_member : Text → Bool) (s : Store Score)
      → ShowsSet (view now s k) l
      → ((v : Text) → later_member v ≡ has_member v)
      → Looped now later_member (purge_if_expired now k s) (go_on l (purge_if_expired now k s))
      → Looped now has_member s ((ensure_set now k >>= λ e. next_set e go_on) s)
  Looped-next now k l go_on has_member later_member s h same_members rest =
      let same = purge_if_expired-SameView now k s in
      record {
        left = rest.left;
        after = rest.after;
        ends = ensure_set-next_set now k l go_on s h ∙ rest.ends;
        members_left = λ v. rest.members_left v ∙ same_members v;
        unseen = record {
          views = λ t j h. rest.unseen.views t j h ∙ same.views t j h;
          deadlines = λ t j h. rest.unseen.deadlines t j h ∙ same.deadlines t j h;
        };
      }

  pub AllShowSets-purged :
      (now : ℕ) (k : Text) (ks : List Text) (ls : List (List Text)) (s : Store Score)
      → AllShowSets (view now s) ks ls
      → AllShowSets (view now (purge_if_expired now k s)) ks ls
  AllShowSets-purged now k ks ls s h =
      AllShowSets-same (view now s) (view now (purge_if_expired now k s)) ks ls
        (λ j. sym ((purge_if_expired-SameView now k s).views now j (omega arith))) h

  -- A loop and the reply behind it.
  pub Looped-reply :
      (now : ℕ) (has_member : Text → Bool) (loop : Cmd (Store Score) (Option (List Text)))
      (s : Store Score)
      → Looped now has_member s (loop s)
      → (result : List Text) × (((loop >>= members_reply) s).0
          ≡ returns (encode_array_of_bulk_strings (map some result)))
        × ((v : Text) → SetOf.has result v ≡ has_member v)
        × SameView now ((loop >>= members_reply) s).1 s
  unfolding given pure
  Looped-reply now has_member loop s r =
      let run = bind-returns loop members_reply r.ends in
      (
        r.left,
        ap (λ x. x.0) run,
        r.members_left,
        subst (λ x. SameView now x.1 s) (sym run) r.unseen,
      )
