-- ===== src/Config/Keys.antt =====
-- The keys that a flat file can hold, and the lines written for them (Config).
use quetzal.Prelude.{
  ℕ, Bool, true, false, not, ◌&&◌, Option, none, some, List, [], ◌∷◌, ◌++◌, ◌≡◌, ◌≢◌, ◌==◌, ◌∙◌,
  refl, sym, ap, subst, if◌then◌else◌, any, All, is_space, arith, Bool-cases, inl, inr, ==_self,
}
use quetzal.Config.{
  Text, text_eq, trim, breaks, one_line, Values, lookup, put, value_of, keys, sort_keys,
  starts_comment, fits_line, collect, line_keys, before, trimmed, key_of, format_kv, with_value,
  with_key, patch,
}
use quetzal.Config.Trim.{
  IsTrimmed, starts_clean, trim-clean, trim-IsTrimmed, trim-starts, text_eq-eq,
}
use quetzal.Config.Lines.{IsLine, one_line-breaks, breaks-IsLine}

module _ (sep : ℕ) where
  abbrev pub IsKey : Text → Type 0
  IsKey k = (fits_line sep k ≡ true) × IsTrimmed k

  -- Keys that the file can hold, with values on one line.
  abbrev pub IsGood : Values → Type 0
  IsGood vals = All (λ e. IsKey e.0 × (any breaks e.1 ≡ false)) vals

  put-IsGood :
      (k v : Text) (m : Values) → IsKey k → any breaks v ≡ false → IsGood m → IsGood (put k v m)
  unfolding put
  put-IsGood k v [] key value h = ((key, value), tt)
  put-IsGood k v ((j, w) ∷ m) key value (here, h) = elim (Bool-cases (text_eq j k)) [
    | inl same ↦ rw same ((here.0, value), h)
    | inr other ↦ rw other (here, put-IsGood k v m key value h)
  ]

  collect-IsGood :
      (vals : Values) (ks : List Text) (out : Values)
      → IsGood out
      → IsGood (collect sep vals ks out)
  unfolding collect
  collect-IsGood vals [] out h = h
  collect-IsGood vals (k ∷ ks) out h = elim (Bool-cases (fits_line sep (trim k))) [
    | inl fits ↦ rw fits (
        collect-IsGood vals ks (put (trim k) (one_line (value_of k vals)) out) (
          put-IsGood (trim k) (one_line (value_of k vals)) out (fits, trim-IsTrimmed k)
            (one_line-breaks (value_of k vals)) h))
    | inr refused ↦ rw refused (collect-IsGood vals ks out h)
  ]

  pub line_keys-IsGood : (vals : Values) → IsGood (line_keys sep vals)
  unfolding line_keys
  line_keys-IsGood vals = collect-IsGood vals (sort_keys (keys vals)) [] tt

  -- A value that is found belongs to a key that the file can hold.
  pub lookup-IsGood :
      (k v : Text) (m : Values) → IsGood m → lookup k m ≡ some v → IsKey k × (any breaks v ≡ false)
  unfolding lookup
  lookup-IsGood k v [] h e = cc
  lookup-IsGood k v ((j, w) ∷ m) (here, h) e = elim (Bool-cases (text_eq j k)) [
    | inl same ↦
        let found : some w ≡ some v = rw same at e in
        let value : w ≡ v = cc in
        (subst IsKey (text_eq-eq j k same) here.0, subst (λ t. any breaks t ≡ false) value here.1)
    | inr other ↦ lookup-IsGood k v m h (rw other at e)
  ]

  fits_line-parts :
      (k : Text)
      → fits_line sep k ≡ true
      → (starts_comment k ≡ false) × (any breaks k ≡ false) × (any (λ c. c == sep) k ≡ false)
  unfolding fits_line
  fits_line-parts k h = parts (starts_comment k) (any breaks k) (any (λ c. c == sep) k) h
    where
      parts :
          (a b c : Bool)
          → (not a && (not b && not c)) ≡ true
          → (a ≡ false) × (b ≡ false) × (c ≡ false)
      parts a b c h = ground (arith, h)

  before-format :
      (k v : Text) → any (λ c. c == sep) k ≡ false → before sep (format_kv sep k v) ≡ some k
  unfolding before format_kv
  before-format [] v h =
      ap (λ b. if b then some [] else elim (before sep v) [ none ↦ none | some t ↦ some (sep ∷ t) ])
        (==_self sep)
  before-format (c ∷ k) v h =
      let other : (c == sep) ≡ false = ground (arith, h) in
      let rest : any (λ d. d == sep) k ≡ false = ground (arith, h) in
      let ih = before-format k v rest in rw (other, ih) refl

  starts-format :
      (k v : Text)
      → starts_comment k ≡ false
      → starts_clean k ≡ true
      → starts_comment (trim (format_kv sep k v)) ≡ false
  unfolding format_kv
  starts-format [] v h clean = cc
  starts-format (c ∷ k) v h clean =
      let solid : is_space c ≡ false = ground (arith, clean) in
      let (r, e) = trim-starts c (k ++ (sep ∷ v)) solid in ap starts_comment e ∙ h

  -- A line that is written for a key is read back as that key's.
  pub key_of-format_kv : (k v : Text) → IsKey k → key_of sep (format_kv sep k v) ≡ some k
  unfolding key_of
  key_of-format_kv k v (fits, clean) =
      let (plain, whole, one) = fits_line-parts k fits in
      ap (λ b. if b then none else trimmed sep (before sep (format_kv sep k v)))
        (starts-format k v plain clean.0)
      ∙ ap (trimmed sep) (before-format k v one)
      ∙ ap some (trim-clean k clean)

  any-append :
      (p : ℕ → Bool) (s t : Text) → any p s ≡ false → any p t ≡ false → any p (s ++ t) ≡ false
  any-append p [] t h e = e
  any-append p (c ∷ s) t h e =
      let miss : p c ≡ false = ground (arith, h) in
      let rest : any p s ≡ false = ground (arith, h) in
      let ih = any-append p s t rest e in ground (arith, miss, ih)

  pub format_kv-IsLine :
      (k v : Text)
      → breaks sep ≡ false
      → IsKey k
      → any breaks v ≡ false
      → IsLine (format_kv sep k v)
  unfolding format_kv
  format_kv-IsLine k v plain (fits, clean) value =
      let (c, whole, one) = fits_line-parts k fits in
      breaks-IsLine (k ++ (sep ∷ v)) (
        any-append breaks k (sep ∷ v) whole
          (ap (λ b. if b then true else any breaks v) plain ∙ value))

  module _ (vals : Values) (good : IsGood vals) where
    -- What a pass does to one line.
    pub data Patched (l : Text) : Text → Type 0 where
      unmanaged : ((k v : Text) → key_of sep l ≡ some k → lookup k vals ≢ some v) → Patched l l
      rewritten :
          (k v : Text)
          → key_of sep l ≡ some k
          → lookup k vals ≡ some v
          → Patched l (format_kv sep k v)

    pub patch-Patched : (l : Text) → Patched l (patch sep vals l)
    unfolding patch
    patch-Patched l = by_key (key_of sep l) refl
      where
        by_value :
            (k : Text) (o : Option Text)
            → key_of sep l ≡ some k
            → lookup k vals ≡ o
            → Patched l (with_value sep l k o)
        by_value k none e found = unmanaged (λ j v e' found'.
            let same : k ≡ j = cc in
            let lost : lookup j vals ≡ none = ap (λ i. lookup i vals) (sym same) ∙ found in cc)
        by_value k (some v) e found = rewritten k v e found

        by_key : (o : Option Text) → key_of sep l ≡ o → Patched l (with_key sep vals l o)
        by_key none e = unmanaged (λ j v e' found. cc)
        by_key (some k) e = by_value k (lookup k vals) e refl

    -- A line that is written for a managed key stays as it is.
    pub patch-format_kv :
        (k v : Text)
        → lookup k vals ≡ some v
        → patch sep vals (format_kv sep k v) ≡ format_kv sep k v
    unfolding patch
    patch-format_kv k v found =
        ap (with_key sep vals (format_kv sep k v))
          (key_of-format_kv k v (lookup-IsGood k v vals good found).0)
        ∙ ap (with_value sep (format_kv sep k v) k) found
