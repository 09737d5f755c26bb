-- ===== src/Store/Newest.antt =====
-- The order in which retention reads the ids of backups (`Order("id desc").Offset` in
-- pruneBackups of internal/store/store.go).
use quetzal.Prelude.{
  ℕ, zero, suc, Bool, true, false, ◌&&◌, List, [], ◌∷◌, ◌==◌, ◌≡◌, ◌≤◌, ◌<◌, ◌∙◌, sym, ap, refl,
  subst, count, any, drop, leb, ltb, All, arith, Bool-cases, inl, inr,
}
use quetzal.Store.Operations.{insert_desc, sort_desc}

abbrev pub Descending : List ℕ → Type 0
Descending [] = Unit
Descending (x ∷ xs) = All (λ y. y ≤ x) xs × Descending xs

All-insert_desc :
    (n m : ℕ) (xs : List ℕ) → n ≤ m → All (λ y. y ≤ m) xs → All (λ y. y ≤ m) (insert_desc n xs)
unfolding insert_desc
All-insert_desc n m [] le h = (le, tt)
All-insert_desc n m (x ∷ xs) le (here, h) = elim (Bool-cases (leb x n)) [
  | inl below ↦ rw below (le, (here, h))
  | inr above ↦ rw above (here, All-insert_desc n m xs le h)
]

All-weaken : (a b : ℕ) (xs : List ℕ) → a ≤ b → All (λ y. y ≤ a) xs → All (λ y. y ≤ b) xs
All-weaken a b [] le h = tt
All-weaken a b (x ∷ xs) le (here, h) = (omega arith, All-weaken a b xs le h)

insert_desc-Descending : (n : ℕ) (xs : List ℕ) → Descending xs → Descending (insert_desc n xs)
unfolding insert_desc
insert_desc-Descending n [] h = (tt, tt)
insert_desc-Descending n (x ∷ xs) (tops, h) = elim (Bool-cases (leb x n)) [
  | inl below ↦
      let le : x ≤ n = ground (arith, below) in
      rw below ((le, All-weaken x n xs le tops), (tops, h))
  | inr above ↦
      let le : n ≤ x = ground (arith, above) in
      rw above (All-insert_desc n x xs le tops, insert_desc-Descending n xs h)
]

pub sort_desc-Descending : (xs : List ℕ) → Descending (sort_desc xs)
unfolding sort_desc
sort_desc-Descending [] = tt
sort_desc-Descending (x ∷ xs) = insert_desc-Descending x (sort_desc xs) (sort_desc-Descending xs)

count-insert_desc :
    (p : ℕ → Bool) (n : ℕ) (xs : List ℕ) → count p (insert_desc n xs) ≡ count p (n ∷ xs)
unfolding insert_desc
count-insert_desc p n [] = refl
count-insert_desc p n (x ∷ xs) = let ih = count-insert_desc p n xs in ground arith

pub count-sort_desc : (p : ℕ → Bool) (xs : List ℕ) → count p (sort_desc xs) ≡ count p xs
unfolding sort_desc
count-sort_desc p [] = refl
count-sort_desc p (x ∷ xs) =
    let ih = count-sort_desc p xs in let here = count-insert_desc p x (sort_desc xs) in ground arith

any-count : (p : ℕ → Bool) (xs : List ℕ) → any p xs ≡ ltb 0 (count p xs)
any-count p [] = refl
any-count p (x ∷ xs) = let ih = any-count p xs in ground arith

pub any-sort_desc : (p : ℕ → Bool) (xs : List ℕ) → any p (sort_desc xs) ≡ any p xs
any-sort_desc p xs =
    any-count p (sort_desc xs) ∙ ap (ltb 0) (count-sort_desc p xs) ∙ sym (any-count p xs)

-- Above every element of a list there is none of them.
any-above : (n a : ℕ) (xs : List ℕ) → a < n → All (λ y. y ≤ a) xs → any (λ i. n == i) xs ≡ false
any-above n a [] lt h = refl
any-above n a (x ∷ xs) lt (here, h) = let ih = any-above n a xs lt h in ground arith

-- An element that is not below the greatest is the greatest.
any-top :
    (n : ℕ) (xs : List ℕ)
    → All (λ y. y ≤ n) xs
    → any (λ i. n == i) xs ≡ ltb 0 (count (λ i. leb n i) xs)
any-top n [] h = refl
any-top n (x ∷ xs) (here, h) = let ih = any-top n xs h in ground arith

count-le :
    (p q : ℕ → Bool) (xs : List ℕ) → ((i : ℕ) → p i ≡ true → q i ≡ true) → count p xs ≤ count q xs
count-le p q [] h = omega arith
count-le p q (x ∷ xs) h =
    let ih = count-le p q xs h in
    elim (Bool-cases (p x)) [
      | inl hit ↦ let too = h x hit in ground (arith, hit, too)
      | inr miss ↦ ground (arith, miss)
    ]

-- What is left of a descending list after its first `k` elements.
pub any-drop :
    (n k : ℕ) (xs : List ℕ)
    → Descending xs
    → any (λ i. n == i) (drop k xs) ≡ (any (λ i. n == i) xs && ltb k (count (λ i. leb n i) xs))
any-drop n zero xs h =
    let here = any-count (λ i. n == i) xs in
    let more = count-le (λ i. n == i) (λ i. leb n i) xs (λ i e. ground (arith, e)) in ground arith
any-drop n (suc k) [] h = refl
any-drop n (suc k) (x ∷ xs) (tops, h) =
    let ih = any-drop n k xs h in
    elim (Bool-cases (leb n x)) [
      | inl low ↦ elim (Bool-cases (n == x)) [
        | inl same ↦
            let e : x ≡ n = ground (arith, same) in
            let top = any-top n xs (subst (λ t. All (λ y. y ≤ t) xs) e tops) in
            ground (arith, low, same)
        | inr other ↦ ground (arith, low, other)
      ]
      | inr high ↦
          let no_such = any-above n x xs (ground (arith, high)) tops in ground (arith, high)
    ]
