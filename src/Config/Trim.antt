-- ===== src/Config/Trim.antt =====
-- Trimming, and the equality of texts (Config).
use quetzal.Prelude.{
  ℕ, Bool, true, false, not, ◌&&◌, [], ◌∷◌, ◌≡◌, ◌∙◌, refl, sym, ap, if◌then◌else◌, is_space, arith,
  Bool-cases, inl, inr,
}
use quetzal.Config.{Text, text_eq, all_space, trim_left, trim_right, trim}

pub text_eq_self : (s : Text) → text_eq s s ≡ true
unfolding text_eq
text_eq_self [] = refl
text_eq_self (c ∷ cs) = let ih = text_eq_self cs in ground arith

pub text_eq-eq : (s t : Text) → text_eq s t ≡ true → s ≡ t
unfolding text_eq
text_eq-eq [] [] h = refl
text_eq-eq [] (d ∷ ds) h = cc
text_eq-eq (c ∷ cs) [] h = cc
text_eq-eq (c ∷ cs) (d ∷ ds) h =
    let same : c ≡ d = ground (arith, h) in
    let rest : text_eq cs ds ≡ true = ground (arith, h) in let ih = text_eq-eq cs ds rest in cc

-- The first, and the last, character is no white space.
abbrev pub starts_clean : Text → Bool
starts_clean [] = true
starts_clean (c ∷ cs) = not (is_space c)

abbrev pub ends_clean : Text → Bool
ends_clean [] = true
ends_clean (c ∷ []) = not (is_space c)
ends_clean (c ∷ d ∷ cs) = ends_clean (d ∷ cs)

abbrev pub IsTrimmed : Text → Type 0
IsTrimmed t = (starts_clean t ≡ true) × (ends_clean t ≡ true)

all_space-ends : (c : ℕ) (cs : Text) → ends_clean (c ∷ cs) ≡ true → all_space (c ∷ cs) ≡ false
unfolding all_space
all_space-ends c [] h = ground (arith, h)
all_space-ends c (d ∷ cs) h =
    let ih : all_space (d ∷ cs) ≡ false = all_space-ends d cs h in
    let e : (is_space d && all_space cs) ≡ false = ih in ground (arith, e)

trim_right-keep :
    (c : ℕ) (cs : Text)
    → (is_space c && all_space cs) ≡ false
    → trim_right (c ∷ cs) ≡ c ∷ trim_right cs
unfolding trim_right
trim_right-keep c cs h = ap (λ b. if b then [] else c ∷ trim_right cs) h

and_false : (a b : Bool) → b ≡ false → (a && b) ≡ false
and_false true b h = h
and_false false b h = refl

trim_right-clean : (t : Text) → ends_clean t ≡ true → trim_right t ≡ t
unfolding trim_right all_space
trim_right-clean [] h = refl
trim_right-clean (c ∷ []) h = ground (arith, h)
trim_right-clean (c ∷ d ∷ cs) h =
    trim_right-keep c (d ∷ cs) (and_false (is_space c) (all_space (d ∷ cs)) (all_space-ends d cs h))
    ∙ ap (λ t. c ∷ t) (trim_right-clean (d ∷ cs) h)

trim_left-clean : (t : Text) → starts_clean t ≡ true → trim_left t ≡ t
unfolding trim_left
trim_left-clean [] h = refl
trim_left-clean (c ∷ cs) h = ground (arith, h)

pub trim-clean : (t : Text) → IsTrimmed t → trim t ≡ t
unfolding trim
trim-clean t (starts, ends) = ap trim_left (trim_right-clean t ends) ∙ trim_left-clean t starts

trim_left-starts : (t : Text) → starts_clean (trim_left t) ≡ true
unfolding trim_left
trim_left-starts [] = refl
trim_left-starts (c ∷ cs) = elim (Bool-cases (is_space c)) [
  | inl blank ↦ rw blank (trim_left-starts cs)
  | inr solid ↦ rw solid (ap not solid)
]

trim_left-ends : (t : Text) → ends_clean t ≡ true → ends_clean (trim_left t) ≡ true
unfolding trim_left
trim_left-ends [] h = refl
trim_left-ends (c ∷ []) h = rw (solid c h) h
  where
    solid : (c : ℕ) → not (is_space c) ≡ true → is_space c ≡ false
    solid c h = ground (arith, h)
trim_left-ends (c ∷ d ∷ cs) h = elim (Bool-cases (is_space c)) [
  | inl blank ↦ rw blank (trim_left-ends (d ∷ cs) h)
  | inr solid ↦ rw solid h
]

trim_right-nil : (t : Text) → trim_right t ≡ [] → all_space t ≡ true
unfolding trim_right all_space
trim_right-nil [] h = refl
trim_right-nil (c ∷ cs) h = elim (Bool-cases (is_space c && all_space cs)) [
  | inl blank ↦ blank
  | inr solid ↦ absurd (not_nil (trim_right cs) (sym (trim_right-keep c cs solid) ∙ h))
]
  where
    not_nil : (t : Text) → (c ∷ t) ≡ [] → ⊥
    not_nil t e = cc

ends_after :
    (c : ℕ) (t : Text)
    → (t ≡ [] → is_space c ≡ false)
    → ends_clean t ≡ true
    → ends_clean (c ∷ t) ≡ true
ends_after c [] lone h = ap not (lone refl)
ends_after c (d ∷ t) lone h = h

trim_right-ends : (t : Text) → ends_clean (trim_right t) ≡ true
unfolding trim_right all_space
trim_right-ends [] = refl
trim_right-ends (c ∷ cs) = elim (Bool-cases (is_space c && all_space cs)) [
  | inl blank ↦ ap (λ b. ends_clean (if b then [] else c ∷ trim_right cs)) blank
  | inr solid ↦
      ap ends_clean (trim_right-keep c cs solid)
      ∙ ends_after c (trim_right cs)
          (λ e. let rest = trim_right-nil cs e in ground (arith, solid, rest)) (trim_right-ends cs)
]

pub trim-IsTrimmed : (t : Text) → IsTrimmed (trim t)
unfolding trim
trim-IsTrimmed t =
    (trim_left-starts (trim_right t), trim_left-ends (trim_right t) (trim_right-ends t))

-- A text that starts cleanly is not trimmed at its start.
pub trim-starts : (c : ℕ) (t : Text) → is_space c ≡ false → (r : Text) × (trim (c ∷ t) ≡ c ∷ r)
unfolding trim
trim-starts c t solid =
    let kept = trim_right-keep c t (first_false (is_space c) (all_space t) solid) in
    (trim_right t, ap trim_left kept ∙ trim_left-clean (c ∷ trim_right t) (ap not solid))
  where
    first_false : (a b : Bool) → a ≡ false → (a && b) ≡ false
    first_false true b h = cc
    first_false false b h = refl
