-- ===== src/Config/Twice.antt =====
-- What a pass over a flat file leaves, and that a second pass changes nothing (Config).
use quetzal.Prelude.{
  ℕ, true, false, not, List, [], ◌∷◌, ◌++◌, map, ◌≡◌, ◌∙◌, ◌⊎◌, refl, sym, ap, if◌then◌else◌, any,
  select, All, Memᴰ, Bool-cases, inl, inr,
}
use quetzal.Config.{
  Text, text_eq, breaks, Values, value_of, keys, sort_keys, line_keys, key_of, format_kv, patch,
  is_key, applied, apply_lines, apply_line_kv, split_lines, join_lines,
}
use quetzal.Config.Lines.{IsLine, split_lines-IsLine, split_lines-join_lines}
use quetzal.Config.Keys.{
  IsGood, line_keys-IsGood, lookup-IsGood, key_of-format_kv, format_kv-IsLine, Patched, unmanaged,
  rewritten, patch-Patched, patch-format_kv,
}
use quetzal.Config.Render.{
  Known, found-Known, keys-found, any-sort_keys, Memᴰ-sort_keys, Memᴰ-select, any-select,
  any-append, select-none,
}

module _ (sep : ℕ) (vals : Values) (good : IsGood sep vals) where
  abbrev pub new_keys : List Text → List Text
  new_keys lines = sort_keys (select (λ k. not (applied sep k lines)) (keys vals))

  abbrev pub written : Text → Text
  written k = format_kv sep k (value_of k vals)

  patch_twice : (l : Text) → patch sep vals (patch sep vals l) ≡ patch sep vals l
  patch_twice l = twice (patch sep vals l) (patch-Patched sep vals good l) refl
    where
      twice : (p : Text) → Patched sep vals good l p → p ≡ patch sep vals l → patch sep vals p ≡ p
      twice p (unmanaged other) e = sym e
      twice p (rewritten k v mine found) e = patch-format_kv sep vals good k v found

  patch-key : (l : Text) → key_of sep (patch sep vals l) ≡ key_of sep l
  patch-key l = same_key (patch sep vals l) (patch-Patched sep vals good l)
    where
      same_key : (p : Text) → Patched sep vals good l p → key_of sep p ≡ key_of sep l
      same_key p (unmanaged other) = refl
      same_key p (rewritten k v mine found) =
          key_of-format_kv sep k v (lookup-IsGood sep k v vals good found).0 ∙ sym mine

  patch-IsLine : breaks sep ≡ false → (l : Text) → IsLine l → IsLine (patch sep vals l)
  patch-IsLine plain l line = still (patch sep vals l) (patch-Patched sep vals good l)
    where
      still : (p : Text) → Patched sep vals good l p → IsLine p
      still p (unmanaged other) = line
      still p (rewritten k v mine found) =
          let (key, value) = lookup-IsGood sep k v vals good found in
          format_kv-IsLine sep k v plain key value

  applied-patch :
      (k : Text) (lines : List Text)
      → applied sep k (map (patch sep vals) lines) ≡ applied sep k lines
  unfolding applied
  applied-patch k [] = refl
  applied-patch k (l ∷ ls) =
      ap (λ o. if is_key sep k o then true else applied sep k (map (patch sep vals) ls))
        (patch-key l)
      ∙ ap (λ b. if is_key sep k (key_of sep l) then true else b) (applied-patch k ls)

  -- The lines that are written for keys are those keys'.
  applied-written :
      (k : Text) (ks : List Text)
      → ((j : Text) → Memᴰ j ks → Known vals j)
      → applied sep k (map written ks) ≡ any (λ j. text_eq j k) ks
  unfolding applied
  applied-written k [] known = refl
  applied-written k (j ∷ js) known =
      let key = (lookup-IsGood sep j (value_of j vals) vals good (known j (Memᴰ.head refl))).0 in
      ap (λ o. if is_key sep k o then true else applied sep k (map written js))
        (key_of-format_kv sep j (value_of j vals) key)
      ∙ ap (λ b. if text_eq j k then true else b)
          (applied-written k js (λ i m. known i (Memᴰ.tail m)))

  pub new_keys-Known : (lines : List Text) (k : Text) → Memᴰ k (new_keys lines) → Known vals k
  new_keys-Known lines k m =
      let (v, found) = keys-found vals k (Memᴰ-select _ (keys vals) (Memᴰ-sort_keys _ m)) in
      found-Known k v vals found

  applied-append :
      (k : Text) (xs ys : List Text)
      → applied sep k (xs ++ ys) ≡ (if applied sep k xs then true else applied sep k ys)
  unfolding applied
  applied-append k xs ys = any-append (λ l. is_key sep k (key_of sep l)) xs ys

  -- After a pass every key is there.
  pub apply_lines-applied :
      (lines : List Text) (k : Text)
      → Memᴰ k (keys vals)
      → applied sep k (apply_lines sep vals lines) ≡ true
  unfolding apply_lines
  apply_lines-applied lines k m =
      applied-append k (map (patch sep vals) lines) (map written (new_keys lines))
      ∙ ap (λ b. if b then true else applied sep k (map written (new_keys lines)))
          (applied-patch k lines)
      ∙ in_either (Bool-cases (applied sep k lines))
    where
      in_either :
          ((applied sep k lines ≡ true) ⊎ (applied sep k lines ≡ false))
          → (if applied sep k lines then true else applied sep k (map written (new_keys lines)))
            ≡ true
      in_either (inl old) =
          ap (λ b. if b then true else applied sep k (map written (new_keys lines))) old
      in_either (inr new) =
          ap (λ b. if b then true else applied sep k (map written (new_keys lines))) new
          ∙ applied-written k (new_keys lines) (new_keys-Known lines)
          ∙ any-sort_keys (λ j. text_eq j k) (select (λ j. not (applied sep j lines)) (keys vals))
          ∙ any-select (λ j. not (applied sep j lines)) (keys vals) k m (ap not new)

  map-append : (f : Text → Text) (xs ys : List Text) → map f (xs ++ ys) ≡ (map f xs ++ map f ys)
  map-append f [] ys = refl
  map-append f (x ∷ xs) ys = ap (λ l. f x ∷ l) (map-append f xs ys)

  map-patch-patch :
      (lines : List Text)
      → map (patch sep vals) (map (patch sep vals) lines) ≡ map (patch sep vals) lines
  map-patch-patch [] = refl
  map-patch-patch (l ∷ ls) =
      ap (λ h. h ∷ map (patch sep vals) (map (patch sep vals) ls)) (patch_twice l)
      ∙ ap (λ t. patch sep vals l ∷ t) (map-patch-patch ls)

  map-patch-written :
      (ks : List Text)
      → ((j : Text) → Memᴰ j ks → Known vals j)
      → map (patch sep vals) (map written ks) ≡ map written ks
  map-patch-written [] known = refl
  map-patch-written (k ∷ ks) known =
      ap (λ h. h ∷ map (patch sep vals) (map written ks))
        (patch-format_kv sep vals good k (value_of k vals) (known k (Memᴰ.head refl)))
      ∙ ap (λ t. written k ∷ t) (map-patch-written ks (λ j m. known j (Memᴰ.tail m)))

  append_nil : (xs : List Text) → (xs ++ []) ≡ xs
  append_nil [] = refl
  append_nil (x ∷ xs) = ap (λ l. x ∷ l) (append_nil xs)

  apply_lines_twice :
      (lines : List Text)
      → apply_lines sep vals (apply_lines sep vals lines) ≡ apply_lines sep vals lines
  unfolding apply_lines
  apply_lines_twice lines =
      let after = apply_lines sep vals lines in
      let nothing_new : select (λ k. not (applied sep k after)) (keys vals) ≡ [] =
        select-none _ (keys vals) (λ k m. ap not (apply_lines-applied lines k m)) in
      ap (λ ks. map (patch sep vals) after ++ map written (sort_keys ks)) nothing_new
      ∙ append_nil (map (patch sep vals) after)
      ∙ map-append (patch sep vals) (map (patch sep vals) lines) (map written (new_keys lines))
      ∙ ap (λ l. l ++ map (patch sep vals) (map written (new_keys lines))) (map-patch-patch lines)
      ∙ ap (λ l. map (patch sep vals) lines ++ l)
          (map-patch-written (new_keys lines) (new_keys-Known lines))

  pub All-append : (P : Text → Type 0) (xs ys : List Text) → All P xs → All P ys → All P (xs ++ ys)
  All-append P [] ys h k = k
  All-append P (x ∷ xs) ys (here, h) k = (here, All-append P xs ys h k)

  patched-IsLine :
      breaks sep ≡ false
      → (lines : List Text) → All IsLine lines
      → All IsLine (map (patch sep vals) lines)
  patched-IsLine plain [] h = tt
  patched-IsLine plain (l ∷ ls) (here, h) = (patch-IsLine plain l here, patched-IsLine plain ls h)

  written-IsLine :
      breaks sep ≡ false
      → (ks : List Text) → ((j : Text) → Memᴰ j ks → Known vals j)
      → All IsLine (map written ks)
  written-IsLine plain [] known = tt
  written-IsLine plain (k ∷ ks) known =
      let (key, value) =
        lookup-IsGood sep k (value_of k vals) vals good (known k (Memᴰ.head refl)) in
      (
        format_kv-IsLine sep k (value_of k vals) plain key value,
        written-IsLine plain ks (λ j m. known j (Memᴰ.tail m)),
      )

  pub apply_lines-IsLine :
      breaks sep ≡ false
      → (lines : List Text) → All IsLine lines
      → All IsLine (apply_lines sep vals lines)
  unfolding apply_lines
  apply_lines-IsLine plain lines h =
      All-append IsLine (map (patch sep vals) lines) (map written (new_keys lines))
        (patched-IsLine plain lines h)
        (written-IsLine plain (new_keys lines) (new_keys-Known lines))

-- The lines of the file after a pass.
pub apply_line_kv-lines :
    (sep : ℕ) (vals : Values) (text : Text)
    → breaks sep ≡ false
    → split_lines (apply_line_kv sep vals text)
      ≡ apply_lines sep (line_keys sep vals) (split_lines text)
unfolding apply_line_kv
apply_line_kv-lines sep vals text plain = split_lines-join_lines _ (
    apply_lines-IsLine sep (line_keys sep vals) (line_keys-IsGood sep vals) plain (split_lines text)
      (split_lines-IsLine text))

-- Rendering a flat file a second time with the same values leaves it as the first time made it,
-- where the separator is no line break, whatever the file, the keys and the values hold.
pub apply_line_kv_twice :
    (sep : ℕ) (vals : Values) (text : Text)
    → breaks sep ≡ false
    → apply_line_kv sep vals (apply_line_kv sep vals text) ≡ apply_line_kv sep vals text
unfolding apply_line_kv
apply_line_kv_twice sep vals text plain =
    ap (λ ls. join_lines (apply_lines sep (line_keys sep vals) ls))
      (apply_line_kv-lines sep vals text plain)
    ∙ ap join_lines
        (apply_lines_twice sep (line_keys sep vals) (line_keys-IsGood sep vals) (split_lines text))
