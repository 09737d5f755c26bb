-- ===== src/Prelude/Rows.antt =====
-- The rows of a table: `WHERE` as a Boolean test, `UPDATE`, `DELETE`, `COUNT` and the first row.
use Prim.Native.Nat.{ℕ, ◌+◌}
use mathlib.Core.Path.{◌≡◌, refl, sym, ap, ◌∙◌}
use mathlib.Core.Bool.{Bool, true, false}
use mathlib.Core.Option.{Option, none, some}
use mathlib.Core.Logic.{inl, inr}
use mathlib.Core.List.{List, [], ◌∷◌, Memᴰ}
use native.Mathlib.Omega.{arith}
use quetzal.Prelude.Lists.{All}
use quetzal.Prelude.Tests.{Bool-cases, if◌then◌else◌}

module _ {ℓ} {A : Type ℓ} where
  abbrev pub first : (A → Bool) → List A → Option A
  first p [] = none
  first p (x ∷ xs) = if p x then some x else first p xs

  abbrev pub update : (A → Bool) → (A → A) → List A → List A
  update p f [] = []
  update p f (x ∷ xs) = (if p x then f x else x) ∷ update p f xs

  abbrev pub delete : (A → Bool) → List A → List A
  delete p [] = []
  delete p (x ∷ xs) = if p x then delete p xs else x ∷ delete p xs

  abbrev pub select : (A → Bool) → List A → List A
  select p [] = []
  select p (x ∷ xs) = if p x then x ∷ select p xs else select p xs

  abbrev pub count : (A → Bool) → List A → ℕ
  count p [] = 0
  count p (x ∷ xs) = (if p x then 1 else 0) + count p xs

  abbrev pub any : (A → Bool) → List A → Bool
  any p [] = false
  any p (x ∷ xs) = if p x then true else any p xs

  -- A row after an update comes from a row before it.
  pub Memᴰ-update :
      (p : A → Bool) (f : A → A) (xs : List A) {x : A}
      → Memᴰ x (update p f xs)
      → (y : A) × Memᴰ y xs × (x ≡ (if p y then f y else y))
  Memᴰ-update p f [] m = elim m [ ]
  Memᴰ-update p f (y ∷ xs) (Memᴰ.head e) = (y, Memᴰ.head refl, e)
  Memᴰ-update p f (y ∷ xs) (Memᴰ.tail m) =
      let (z, old, e) = Memᴰ-update p f xs m in (z, Memᴰ.tail old, e)

  pub Memᴰ-delete :
      (p : A → Bool) (xs : List A) {x : A} → Memᴰ x (delete p xs) → Memᴰ x xs × (p x ≡ false)
  Memᴰ-delete p [] m = elim m [ ]
  Memᴰ-delete p (y ∷ xs) {x} m = kept_or_not (p y) refl (λ n. Memᴰ-delete p xs n) m
    where
      kept_or_not :
          (b : Bool)
          → p y ≡ b
          → (Memᴰ x (delete p xs) → Memᴰ x xs × (p x ≡ false))
          → Memᴰ x (if b then delete p xs else y ∷ delete p xs)
          → Memᴰ x (y ∷ xs) × (p x ≡ false)
      kept_or_not true e ih m = (Memᴰ.tail (ih m).0, (ih m).1)
      kept_or_not false e ih (Memᴰ.head same) = (Memᴰ.head same, ap p same ∙ e)
      kept_or_not false e ih (Memᴰ.tail m) = (Memᴰ.tail (ih m).0, (ih m).1)

  -- Nothing is counted exactly if no row passes.
  pub count-zero : (p : A → Bool) (xs : List A) {x : A} → count p xs ≡ 0 → Memᴰ x xs → p x ≡ false
  count-zero p [] none_counted m = elim m [ ]
  count-zero p (y ∷ xs) none_counted (Memᴰ.head e) = rw e (ground arith)
  count-zero p (y ∷ xs) none_counted (Memᴰ.tail m) = count-zero p xs (ground arith) m

  pub any-false : (p : A → Bool) (xs : List A) {x : A} → any p xs ≡ false → Memᴰ x xs → p x ≡ false
  any-false p [] h m = elim m [ ]
  any-false p (y ∷ xs) h (Memᴰ.head e) = rw e (ground arith)
  any-false p (y ∷ xs) h (Memᴰ.tail m) = any-false p xs (ground arith) m

  pub first-Memᴰ :
      (p : A → Bool) (xs : List A) {x : A} → first p xs ≡ some x → Memᴰ x xs × (p x ≡ true)
  first-Memᴰ p [] h = cc
  first-Memᴰ p (y ∷ xs) {x} h = elim (Bool-cases (p y)) [
    | inl hit ↦ let e : x ≡ y = ground (arith, hit) in (Memᴰ.head e, ap p e ∙ hit)
    | inr miss ↦ let (m, q) = first-Memᴰ p xs (rw miss at h) in (Memᴰ.tail m, q)
  ]

  pub any-none :
      (p : A → Bool) (xs : List A) → ((x : A) → Memᴰ x xs → p x ≡ false) → any p xs ≡ false
  any-none p [] h = refl
  any-none p (x ∷ xs) h =
      let here = h x (Memᴰ.head refl) in
      let later = any-none p xs (λ y m. h y (Memᴰ.tail m)) in ground (arith, here, later)

  pub first-none :
      (p : A → Bool) (xs : List A) → ((x : A) → Memᴰ x xs → p x ≡ false) → first p xs ≡ none
  first-none p [] h = refl
  first-none p (x ∷ xs) h =
      let here = h x (Memᴰ.head refl) in
      let later = first-none p xs (λ y m. h y (Memᴰ.tail m)) in ground (arith, here, later)

  -- A row before an update is there after it, updated if it passed the test.
  pub update-Memᴰ :
      (p : A → Bool) (f : A → A) (xs : List A) {x : A}
      → Memᴰ x xs
      → Memᴰ (if p x then f x else x) (update p f xs)
  update-Memᴰ p f [] m = elim m [ ]
  update-Memᴰ p f (y ∷ xs) (Memᴰ.head e) = Memᴰ.head (ap (λ z. if p z then f z else z) e)
  update-Memᴰ p f (y ∷ xs) (Memᴰ.tail m) = Memᴰ.tail (update-Memᴰ p f xs m)

  pub All-update {κ μ} :
      (P : A → Type κ) (Q : A → Type μ) (p : A → Bool) (f : A → A)
      → ((x : A) → P x → p x ≡ true → Q (f x))
      → ((x : A) → P x → p x ≡ false → Q x)
      → (xs : List A) → All P xs
      → All Q (update p f xs)
  All-update P Q p f hit miss [] h = tt
  All-update P Q p f hit miss (x ∷ xs) (here, h) = elim (Bool-cases (p x)) [
    | inl e ↦ rw e (hit x here e, All-update P Q p f hit miss xs h)
    | inr e ↦ rw e (miss x here e, All-update P Q p f hit miss xs h)
  ]

  -- A row that an update or a deletion does not concern stays.
  pub delete-Memᴰ :
      (p : A → Bool) (xs : List A) {x : A} → Memᴰ x xs → p x ≡ false → Memᴰ x (delete p xs)
  delete-Memᴰ p [] m miss = elim m [ ]
  delete-Memᴰ p (y ∷ xs) {x} (Memᴰ.head e) miss = rw (ap p (sym e) ∙ miss) (Memᴰ.head e)
  delete-Memᴰ p (y ∷ xs) {x} (Memᴰ.tail m) miss = elim (Bool-cases (p y)) [
    | inl gone ↦ rw gone (delete-Memᴰ p xs m miss)
    | inr kept ↦ rw kept (Memᴰ.tail (delete-Memᴰ p xs m miss))
  ]

  pub count-none :
      (p : A → Bool) (xs : List A) → ((x : A) → Memᴰ x xs → p x ≡ false) → count p xs ≡ 0
  count-none p [] h = refl
  count-none p (x ∷ xs) h =
      let here = h x (Memᴰ.head refl) in
      let later = count-none p xs (λ y m. h y (Memᴰ.tail m)) in ground (arith, here, later)
