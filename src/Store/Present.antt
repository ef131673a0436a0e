-- ===== src/Store/Present.antt =====
-- Handlers that give a deadline to a key, after a lookup that found the key present.
use redis_clone_js.Prelude.{
  ℕ, ◌≡◌, refl, Bool, true, false, Option, none, some, ap, ◌∙◌, if◌then◌else◌,
}
use redis_clone_js.Prelude.Text.{Text}
use redis_clone_js.Prelude.Int.{ℤ}
use redis_clone_js.Map
use redis_clone_js.Map.Laws.{has-eq-get, is_some}
use redis_clone_js.Cmd.{pure, modify, given, ◌>>=◌}
use redis_clone_js.Cmd.Keeps.{Keeps}
use redis_clone_js.Store.{
  Store, Entry, Handler, set_expiry, get_entry, lookup_entry, purge_if_expired,
}
use redis_clone_js.Store.Consistent.{
  IsConsistent, set_expiry-IsConsistent, purge_if_expired-IsConsistent, consistent_rules,
}

module _ {Score : Type 0} where
  -- A handler that may give a deadline to `key`, run where `key` is present.
  pub record KeepsPresent (key : Text) (m : Handler Score) : Type 0 where
    pub at : (s : Store Score) → Map.has s.kv key ≡ true → IsConsistent s → IsConsistent (m s).1

  pub KeepsPresent-set_expiry :
      (key : Text) (exp : ℤ) (t : Text)
      → KeepsPresent key (modify (set_expiry key exp) >>= λ _. pure t)
  unfolding ◌>>=◌ modify
  KeepsPresent-set_expiry key exp t = record {
    at = λ s present c. set_expiry-IsConsistent key exp s present c;
  }

  pub KeepsPresent-Keeps :
      (key : Text) (m : Handler Score) → Keeps IsConsistent m → KeepsPresent key m
  KeepsPresent-Keeps key m k = record { at = λ s _ c. k.at s c }

  pub KeepsPresent-given :
      {A : Type 0} (key : Text) (o : Option A) (m : Handler Score) (f : A → Handler Score)
      → KeepsPresent key m
      → ((a : A) → KeepsPresent key (f a))
      → KeepsPresent key (given o m f)
  unfolding given
  KeepsPresent-given key none m f km kf = km
  KeepsPresent-given key (some a) m f km kf = kf a

  pub KeepsPresent-if :
      (key : Text) (b : Bool) (m n : Handler Score)
      → KeepsPresent key m
      → KeepsPresent key n
      → KeepsPresent key (if b then m else n)
  KeepsPresent-if key true m n km kn = km
  KeepsPresent-if key false m n km kn = kn

  -- After a lookup that found an entry, the key is present.
  on_entry :
      (key : Text) (o : Option (Entry Score)) (absent : Handler Score)
      (present : Entry Score → Handler Score) (s : Store Score)
      → Map.get s.kv key ≡ o
      → Keeps IsConsistent absent
      → ((x : Entry Score) → KeepsPresent key (present x))
      → IsConsistent s
      → IsConsistent (given o absent present s).1
  unfolding given
  on_entry key none absent present s e ka kp c = ka.at s c
  on_entry key (some x) absent present s e ka kp c =
      (kp x).at s (has-eq-get s.kv key ∙ ap is_some e) c

  pub with_entry-Keeps :
      (now : ℕ) (key : Text) (absent : Handler Score) (present : Entry Score → Handler Score)
      → Keeps IsConsistent absent
      → ((x : Entry Score) → KeepsPresent key (present x))
      → Keeps IsConsistent (get_entry now key >>= λ entry. given entry absent present)
  unfolding get_entry lookup_entry ◌>>=◌
  with_entry-Keeps now key absent present ka kp = record {
    at = λ s c.
        on_entry key _ absent present (purge_if_expired now key s) refl ka kp
          (purge_if_expired-IsConsistent now key s c);
  }

pub ruleset present_rules = (
  consistent_rules, with_entry-Keeps, KeepsPresent-given, KeepsPresent-if, KeepsPresent-set_expiry,
  KeepsPresent-Keeps,
)
