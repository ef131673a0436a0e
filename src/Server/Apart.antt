-- ===== src/Server/Apart.antt =====
-- src/server/Server.js: stored keys, and the databases and keys in them.
use redis_clone_js.Prelude.{
  ℕ, suc, ◌≡◌, refl, ap, sym, ◌∙◌, true, false, some, List, [], ◌∷◌, ◌++◌, arith, append_assoc,
}
use redis_clone_js.Prelude.Text.{Text, text}
use redis_clone_js.Number.{show_ℕ, is_digit, read_digits}
use redis_clone_js.Number.Decimal.{StartsWithDigit, show_ℕ-StartsWithDigit, read_digits-digits}
use redis_clone_js.Strings.Counter.{all_digits}
use redis_clone_js.Strings.Exact.{show_ℕ-all_digits}
use redis_clone_js.Server.Databases.{
  db_prefix, split_digits, has_line_end, match_key, match_stored,
  extract_db_and_key_from_stored_key, or_db_zero,
}

split_digits-digits :
    (s rest : Text) → all_digits s ≡ true → split_digits (s ++ (b'}' ∷ rest)) ≡ (s, b'}' ∷ rest)
unfolding split_digits all_digits is_digit
split_digits-digits [] rest h = refl
split_digits-digits (c ∷ s) rest h = ground (arith, split_digits-digits s rest)

read_show : (n : ℕ) → read_digits 0 (show_ℕ n) ≡ n
unfolding show_ℕ read_digits
read_show n = read_digits-digits (suc n) n [] (omega arith)

match_key-digits :
    (s key : Text)
    → StartsWithDigit s
    → has_line_end key ≡ false
    → match_key s (b'}' ∷ b':' ∷ key) ≡ some (read_digits 0 s, key)
match_key-digits [] key h k = elim h [ ]
match_key-digits (c ∷ s) key h k = rw k refl

prefixed :
    (db : ℕ) (key : Text) → db_prefix db ++ key ≡ text "{db" ++ (show_ℕ db ++ (text "}:" ++ key))
unfolding db_prefix
prefixed db key = ap (text "{db" ++◌) (append_assoc (show_ℕ db) (text "}:") key)

-- `_extractDbAndKeyFromStoredKey` gives back the database and the key that `_dbPrefix` was put in
-- front of, for a key without a line end.
pub extract-db_prefix :
    (db : ℕ) (key : Text)
    → has_line_end key ≡ false
    → extract_db_and_key_from_stored_key (db_prefix db ++ key) ≡ (db, key)
unfolding extract_db_and_key_from_stored_key match_stored
extract-db_prefix db key h =
    let cut = split_digits-digits (show_ℕ db) (b':' ∷ key) (show_ℕ-all_digits db) in
    let whole = text "{db" ++ (show_ℕ db ++ (text "}:" ++ key)) in
    ap extract_db_and_key_from_stored_key (prefixed db key)
    ∙ ap (λ r. or_db_zero whole (match_key r.0 r.1)) cut
    ∙ ap (or_db_zero whole) (match_key-digits (show_ℕ db) key (show_ℕ-StartsWithDigit db) h)
    ∙ ap (λ n. (n, key)) (read_show db)

-- Two keys with a prefix are the same only for the same database and the same key.
pub db_prefix-apart :
    (i j : ℕ) (a b : Text) → db_prefix i ++ a ≡ db_prefix j ++ b → (i ≡ j) × (a ≡ b)
db_prefix-apart i j a b e =
    let left = split_digits-digits (show_ℕ i) (b':' ∷ a) (show_ℕ-all_digits i) in
    let right = split_digits-digits (show_ℕ j) (b':' ∷ b) (show_ℕ-all_digits j) in
    let e' : text "{db" ++ (show_ℕ i ++ (text "}:" ++ a))
        ≡ text "{db" ++ (show_ℕ j ++ (text "}:" ++ b)) =
      sym (prefixed i a) ∙ e ∙ prefixed j b in
    let rests : show_ℕ i ++ (text "}:" ++ a) ≡ show_ℕ j ++ (text "}:" ++ b) = cc in
    let same : Path (List ℕ × List ℕ) (show_ℕ i, b'}' ∷ b':' ∷ a) (show_ℕ j, b'}' ∷ b':' ∷ b) =
      sym left ∙ ap split_digits rests ∙ right in
    (sym (read_show i) ∙ ap (λ r. read_digits 0 r.0) same ∙ read_show j, cc)
