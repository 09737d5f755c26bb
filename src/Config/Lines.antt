-- ===== src/Config/Lines.antt =====
-- Splitting a file into lines and joining them again (Config).
use quetzal.Prelude.{
  ℕ, Bool, true, false, ◌&&◌, List, [], ◌∷◌, ◌++◌, map, ◌≡◌, ◌≢◌, ◌==◌, ◌∙◌, refl, sym, ap,
  if◌then◌else◌, any, All, arith, Bool-cases, inl, inr,
}
use quetzal.Config.{
  Text, newline, carriage, all_carriage, trim_carriage, push, split, trim_suffix, split_lines,
  join_lines, breaks, one_line,
}

abbrev pub has : ℕ → Text → Bool
has c t = any (λ d. d == c) t

-- A line that a file gives back as it is.
abbrev pub IsLine : Text → Type 0
IsLine t = (has newline t ≡ false) × (trim_carriage t ≡ t)

trim_carriage-keep :
    (c : ℕ) (cs : Text)
    → ((c == carriage) && all_carriage cs) ≡ false
    → trim_carriage (c ∷ cs) ≡ c ∷ trim_carriage cs
unfolding trim_carriage
trim_carriage-keep c cs h = ap (λ b. if b then [] else c ∷ trim_carriage cs) h

trim_carriage-none : (t : Text) → has carriage t ≡ false → trim_carriage t ≡ t
unfolding trim_carriage
trim_carriage-none [] h = refl
trim_carriage-none (c ∷ cs) h =
    let other : (c == carriage) ≡ false = ground (arith, h) in
    let rest : has carriage cs ≡ false = ground (arith, h) in
    trim_carriage-keep c cs (ground (arith, other)) ∙ ap (λ t. c ∷ t) (trim_carriage-none cs rest)

all_carriage-trim : (t : Text) → all_carriage (trim_carriage t) ≡ true → all_carriage t ≡ true
unfolding all_carriage trim_carriage
all_carriage-trim [] h = refl
all_carriage-trim (c ∷ cs) h = elim (Bool-cases ((c == carriage) && all_carriage cs)) [
  | inl blank ↦ blank
  | inr solid ↦
      let kept : all_carriage (c ∷ trim_carriage cs) ≡ true =
        ap all_carriage (sym (trim_carriage-keep c cs solid)) ∙ h in
      let first : (c == carriage) ≡ true = ground (arith, kept) in
      let rest : all_carriage (trim_carriage cs) ≡ true = ground (arith, kept) in
      let later = all_carriage-trim cs rest in ground (arith, first, later)
]

trim_carriage_twice : (t : Text) → trim_carriage (trim_carriage t) ≡ trim_carriage t
unfolding trim_carriage all_carriage
trim_carriage_twice [] = refl
trim_carriage_twice (c ∷ cs) = elim (Bool-cases ((c == carriage) && all_carriage cs)) [
  | inl blank ↦
      ap (λ b. trim_carriage (if b then [] else c ∷ trim_carriage cs)) blank
      ∙ ap (λ b. if b then [] else c ∷ trim_carriage cs) (sym blank)
  | inr solid ↦
      let kept = trim_carriage-keep c cs solid in
      ap trim_carriage kept
      ∙ trim_carriage-keep c (trim_carriage cs) (still c cs solid)
      ∙ ap (λ t. c ∷ t) (trim_carriage_twice cs)
      ∙ sym kept
]
  where
    still :
        (c : ℕ) (cs : Text)
        → ((c == carriage) && all_carriage cs) ≡ false
        → ((c == carriage) && all_carriage (trim_carriage cs)) ≡ false
    still c cs solid = elim (Bool-cases (all_carriage (trim_carriage cs))) [
      | inl all ↦ let old = all_carriage-trim cs all in ground (arith, solid, all, old)
      | inr some_left ↦ ground (arith, some_left)
    ]

has-trim_carriage : (d : ℕ) (t : Text) → has d t ≡ false → has d (trim_carriage t) ≡ false
unfolding trim_carriage
has-trim_carriage d [] h = refl
has-trim_carriage d (c ∷ cs) h =
    let other : (c == d) ≡ false = ground (arith, h) in
    let rest : has d cs ≡ false = ground (arith, h) in
    let ih = has-trim_carriage d cs rest in
    elim (Bool-cases ((c == carriage) && all_carriage cs)) [
      | inl blank ↦ ap (λ b. has d (if b then [] else c ∷ trim_carriage cs)) blank
      | inr solid ↦ ap (has d) (trim_carriage-keep c cs solid) ∙ ground (arith, other, ih)
    ]

-- Splitting.

push-All :
    (c : ℕ) (ls : List Text)
    → (c == newline) ≡ false
    → All (λ l. has newline l ≡ false) ls
    → All (λ l. has newline l ≡ false) (push c ls)
push-All c [] other h = (ground (arith, other), tt)
push-All c (l ∷ ls) other (here, h) = (ground (arith, other, here), h)

split-All : (t : Text) → All (λ l. has newline l ≡ false) (split t)
unfolding split
split-All [] = (refl, tt)
split-All (c ∷ cs) = elim (Bool-cases (c == newline)) [
  | inl ends ↦ rw ends (refl, split-All cs)
  | inr goes ↦ rw goes (push-All c (split cs) goes (split-All cs))
]

trimmed-All :
    (ls : List Text) → All (λ l. has newline l ≡ false) ls → All IsLine (map trim_carriage ls)
trimmed-All [] h = tt
trimmed-All (l ∷ ls) (here, h) =
    ((has-trim_carriage newline l here, trim_carriage_twice l), trimmed-All ls h)

-- Every line of a file is one that it gives back.
pub split_lines-IsLine : (t : Text) → All IsLine (split_lines t)
unfolding split_lines
split_lines-IsLine [] = tt
split_lines-IsLine (c ∷ cs) = trimmed-All _ (split-All (trim_suffix (c ∷ cs)))

split_line : (l : Text) → has newline l ≡ false → split l ≡ l ∷ []
unfolding split
split_line [] h = refl
split_line (c ∷ cs) h =
    let other : (c == newline) ≡ false = ground (arith, h) in
    let rest : has newline cs ≡ false = ground (arith, h) in
    ap (λ b. if b then [] ∷ split cs else push c (split cs)) other
    ∙ ap (push c) (split_line cs rest)

split-append : (l t : Text) → has newline l ≡ false → split (l ++ (newline ∷ t)) ≡ l ∷ split t
unfolding split
split-append [] t h = refl
split-append (c ∷ cs) t h =
    let other : (c == newline) ≡ false = ground (arith, h) in
    let rest : has newline cs ≡ false = ground (arith, h) in
    ap (λ b. if b then [] ∷ split (cs ++ (newline ∷ t)) else push c (split (cs ++ (newline ∷ t))))
      other
    ∙ ap (push c) (split-append cs t rest)

trim_suffix-cons : (c : ℕ) (t : Text) → t ≢ [] → trim_suffix (c ∷ t) ≡ c ∷ trim_suffix t
unfolding trim_suffix
trim_suffix-cons c [] ne = absurd (ne refl)
trim_suffix-cons c (d ∷ t) ne = refl

append_ne_nil : (l : Text) (c : ℕ) (t : Text) → (l ++ (c ∷ t)) ≢ []
append_ne_nil [] c t h = cc
append_ne_nil (d ∷ l) c t h = cc

trim_suffix-append :
    (l : Text) (c : ℕ) (t : Text) → trim_suffix (l ++ (c ∷ t)) ≡ l ++ trim_suffix (c ∷ t)
trim_suffix-append [] c t = refl
trim_suffix-append (d ∷ l) c t =
    trim_suffix-cons d (l ++ (c ∷ t)) (append_ne_nil l c t)
    ∙ ap (λ r. d ∷ r) (trim_suffix-append l c t)

append_nil : (l : Text) → (l ++ []) ≡ l
append_nil [] = refl
append_nil (c ∷ l) = ap (λ r. c ∷ r) (append_nil l)

split-join :
    (l : Text) (ls : List Text)
    → has newline l ≡ false
    → All (λ k. has newline k ≡ false) ls
    → split (trim_suffix (join_lines (l ∷ ls))) ≡ l ∷ ls
unfolding join_lines trim_suffix
split-join l [] here h =
    ap split (trim_suffix-append l newline [] ∙ append_nil l) ∙ split_line l here
split-join l (m ∷ ls) here (next, h) =
    let rest = join_lines (m ∷ ls) in
    ap split (
      trim_suffix-append l newline rest
      ∙ ap (λ r. l ++ r) (trim_suffix-cons newline rest (append_ne_nil m newline (join_lines ls))))
    ∙ split-append l (trim_suffix rest) here
    ∙ ap (λ r. l ∷ r) (split-join m ls next h)

untrimmed : (ls : List Text) → All IsLine ls → map trim_carriage ls ≡ ls
untrimmed [] h = refl
untrimmed (l ∷ ls) ((here, same), h) =
    ap (λ r. r ∷ map trim_carriage ls) same ∙ ap (λ r. l ∷ r) (untrimmed ls h)

no_newlines : (ls : List Text) → All IsLine ls → All (λ k. has newline k ≡ false) ls
no_newlines [] h = tt
no_newlines (l ∷ ls) ((here, same), h) = (here, no_newlines ls h)

split_lines_nonempty :
    (t : Text) → t ≢ [] → split_lines t ≡ map trim_carriage (split (trim_suffix t))
unfolding split_lines
split_lines_nonempty [] ne = absurd (ne refl)
split_lines_nonempty (c ∷ t) ne = refl

-- Lines that are joined are split again.
pub split_lines-join_lines : (ls : List Text) → All IsLine ls → split_lines (join_lines ls) ≡ ls
unfolding join_lines split_lines
split_lines-join_lines [] h = refl
split_lines-join_lines (l ∷ ls) ((here, same), h) =
    split_lines_nonempty (join_lines (l ∷ ls)) (append_ne_nil l newline (join_lines ls))
    ∙ ap (map trim_carriage) (split-join l ls here (no_newlines ls h))
    ∙ untrimmed (l ∷ ls) ((here, same), h)

-- A text on one line.

pub one_line-breaks : (t : Text) → any breaks (one_line t) ≡ false
unfolding one_line
one_line-breaks [] = refl
one_line-breaks (c ∷ cs) = let ih = one_line-breaks cs in ground (arith, ih)

-- A text without line breaks is a line.
pub breaks-IsLine : (t : Text) → any breaks t ≡ false → IsLine t
breaks-IsLine t h = (no_newline t h, trim_carriage-none t (no_carriage t h))
  where
    no_newline : (t : Text) → any breaks t ≡ false → has newline t ≡ false
    no_newline [] h = refl
    no_newline (c ∷ cs) h =
        let rest : any breaks cs ≡ false = ground (arith, h) in
        let ih = no_newline cs rest in ground (arith, h, ih)

    no_carriage : (t : Text) → any breaks t ≡ false → has carriage t ≡ false
    no_carriage [] h = refl
    no_carriage (c ∷ cs) h =
        let rest : any breaks cs ≡ false = ground (arith, h) in
        let ih = no_carriage cs rest in ground (arith, h, ih)
