-- ===== src/Config/Origin.antt =====
-- Where each line of a rendered flat file comes from (Config).
use quetzal.Prelude.{
  ℕ, false, true, some, List, [], ◌∷◌, map, ◌≡◌, ◌≢◌, ◌∙◌, refl, sym, ap, subst, All, Memᴰ,
}
use quetzal.Config.{
  Text, breaks, Values, lookup, value_of, keys, line_keys, key_of, format_kv, patch, applied,
  apply_lines, apply_line_kv, split_lines,
}
use quetzal.Config.Keys.{IsGood, line_keys-IsGood, Patched, unmanaged, rewritten, patch-Patched}
use quetzal.Config.Render.{Known}
use quetzal.Config.Twice.{
  new_keys, written, new_keys-Known, All-append, apply_lines-applied, apply_line_kv-lines,
}

-- A line is one of the old lines, of none of the keys, or the line of a key and its value.
pub data Origin (sep : ℕ) (vals : Values) (old : List Text) (l : Text) : Type 0 where
  kept :
      Memᴰ l old
      → ((k v : Text) → key_of sep l ≡ some k → lookup k vals ≢ some v)
      → Origin sep vals old l
  made : (k v : Text) → lookup k vals ≡ some v → l ≡ format_kv sep k v → Origin sep vals old l

module _ (sep : ℕ) (vals : Values) (good : IsGood sep vals) where
  patch-Origin : (old : List Text) (l : Text) → Memᴰ l old → Origin sep vals old (patch sep vals l)
  patch-Origin old l m = by_patch (patch sep vals l) (patch-Patched sep vals good l)
    where
      by_patch : (p : Text) → Patched sep vals good l p → Origin sep vals old p
      by_patch p (unmanaged other) = kept m other
      by_patch p (rewritten k v mine found) = made k v found refl

  patched-Origin :
      (old ls : List Text)
      → ((l : Text) → Memᴰ l ls → Memᴰ l old)
      → All (Origin sep vals old) (map (patch sep vals) ls)
  patched-Origin old [] inside = tt
  patched-Origin old (l ∷ ls) inside = (
    patch-Origin old l (inside l (Memᴰ.head refl)),
    patched-Origin old ls (λ j m. inside j (Memᴰ.tail m)),
  )

  written-Origin :
      (old ks : List Text)
      → ((k : Text) → Memᴰ k ks → Known vals k)
      → All (Origin sep vals old) (map (written sep vals good) ks)
  written-Origin old [] known = tt
  written-Origin old (k ∷ ks) known = (
    made k (value_of k vals) (known k (Memᴰ.head refl)) refl,
    written-Origin old ks (λ j m. known j (Memᴰ.tail m)),
  )

  apply_lines-Origin : (old : List Text) → All (Origin sep vals old) (apply_lines sep vals old)
  unfolding apply_lines
  apply_lines-Origin old =
      All-append sep vals good (Origin sep vals old) (map (patch sep vals) old)
        (map (written sep vals good) (new_keys sep vals good old))
        (patched-Origin old old (λ l m. m))
        (written-Origin old (new_keys sep vals good old) (new_keys-Known sep vals good old))

-- Where the separator is no line break, each line of a rendered flat file is an old line of a key
-- that is not rendered, or exactly the line of a rendered key and its value, and each rendered key
-- has a line: whatever a value holds, it writes no other line.
pub apply_line_kv-Origin :
    (sep : ℕ) (vals : Values) (text : Text)
    → breaks sep ≡ false
    → All
        (Origin sep (line_keys sep vals) (split_lines text))
        (split_lines (apply_line_kv sep vals text))
      × ((k : Text)
          → Memᴰ k (keys (line_keys sep vals))
          → applied sep k (split_lines (apply_line_kv sep vals text)) ≡ true)
apply_line_kv-Origin sep vals text plain =
    let e = sym (apply_line_kv-lines sep vals text plain) in
    let good = line_keys-IsGood sep vals in
    (
      subst (All (Origin sep (line_keys sep vals) (split_lines text))) e
          (apply_lines-Origin sep (line_keys sep vals) good (split_lines text)),
      λ k m.
          ap (applied sep k) (sym e)
          ∙ apply_lines-applied sep (line_keys sep vals) good (split_lines text) k m,
    )
