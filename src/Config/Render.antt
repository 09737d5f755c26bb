-- ===== src/Config/Render.antt =====
-- The lines of a flat file after a pass, and a second pass (Config).
use quetzal.Prelude.{
  Bool, true, false, some, List, [], ◌∷◌, ◌++◌, ◌≡◌, ◌∙◌, refl, sym, ap, if◌then◌else◌, any, select,
  Memᴰ, arith, Bool-cases, inl, inr,
}
use quetzal.Config.{
  Text, text_eq, text_le, Values, lookup, value_of, or_empty, keys, insert_key, sort_keys,
}
use quetzal.Config.Trim.{text_eq_self}

-- The key has a value.
abbrev pub Known : Values → Text → Type 0
Known vals k = lookup k vals ≡ some (value_of k vals)

pub found-Known : (k v : Text) (vals : Values) → lookup k vals ≡ some v → Known vals k
found-Known k v vals e = e ∙ ap some (sym (ap or_empty e))

pub keys-found : (m : Values) (k : Text) → Memᴰ k (keys m) → (v : Text) × (lookup k m ≡ some v)
unfolding lookup
keys-found [] k h = elim h [ ]
keys-found ((j, w) ∷ m) k (Memᴰ.head e) =
    (w, ap (λ b. if b then some w else lookup k m) (ap (λ t. text_eq j t) e ∙ text_eq_self j))
keys-found ((j, w) ∷ m) k (Memᴰ.tail h) = elim (Bool-cases (text_eq j k)) [
  | inl same ↦ (w, rw same refl)
  | inr other ↦ rw other (keys-found m k h)
]

any-insert_key :
    (p : Text → Bool) (k : Text) (js : List Text) → any p (insert_key k js) ≡ any p (k ∷ js)
unfolding insert_key
any-insert_key p k [] = refl
any-insert_key p k (j ∷ js) = let ih = any-insert_key p k js in ground arith

pub any-sort_keys : (p : Text → Bool) (ks : List Text) → any p (sort_keys ks) ≡ any p ks
unfolding sort_keys
any-sort_keys p [] = refl
any-sort_keys p (k ∷ ks) =
    any-insert_key p k (sort_keys ks) ∙ ap (λ b. if p k then true else b) (any-sort_keys p ks)

under_head :
    (a : Text) {xs ys : List Text} {x : Text}
    → (Memᴰ x xs → Memᴰ x ys)
    → Memᴰ x (a ∷ xs)
    → Memᴰ x (a ∷ ys)
under_head a inner (Memᴰ.head e) = Memᴰ.head e
under_head a inner (Memᴰ.tail n) = Memᴰ.tail (inner n)

swapped : (a b : Text) {xs : List Text} {x : Text} → Memᴰ x (a ∷ b ∷ xs) → Memᴰ x (b ∷ a ∷ xs)
swapped a b (Memᴰ.head e) = Memᴰ.tail (Memᴰ.head e)
swapped a b (Memᴰ.tail (Memᴰ.head e)) = Memᴰ.head e
swapped a b (Memᴰ.tail (Memᴰ.tail n)) = Memᴰ.tail (Memᴰ.tail n)

if_Memᴰ :
    (b : Bool) {xs ys zs : List Text} {x : Text}
    → (Memᴰ x xs → Memᴰ x zs)
    → (Memᴰ x ys → Memᴰ x zs)
    → Memᴰ x (if b then xs else ys)
    → Memᴰ x zs
if_Memᴰ true here there m = here m
if_Memᴰ false here there m = there m

Memᴰ-insert_key :
    (k : Text) (js : List Text) {x : Text} → Memᴰ x (insert_key k js) → Memᴰ x (k ∷ js)
unfolding insert_key
Memᴰ-insert_key k [] m = m
Memᴰ-insert_key k (j ∷ js) m =
    if_Memᴰ (text_le k j) (λ n. n) (λ n. swapped j k (under_head j (λ o. Memᴰ-insert_key k js o) n))
      m

pub Memᴰ-sort_keys : (ks : List Text) {x : Text} → Memᴰ x (sort_keys ks) → Memᴰ x ks
unfolding sort_keys
Memᴰ-sort_keys [] m = m
Memᴰ-sort_keys (k ∷ ks) m =
    under_head k (λ n. Memᴰ-sort_keys ks n) (Memᴰ-insert_key k (sort_keys ks) m)

pub Memᴰ-select : (p : Text → Bool) (ks : List Text) {x : Text} → Memᴰ x (select p ks) → Memᴰ x ks
Memᴰ-select p [] m = m
Memᴰ-select p (k ∷ ks) m =
    if_Memᴰ (p k) (under_head k (λ n. Memᴰ-select p ks n)) (λ n. Memᴰ.tail (Memᴰ-select p ks n)) m

pub any-select :
    (p : Text → Bool) (ks : List Text) (k : Text)
    → Memᴰ k ks
    → p k ≡ true
    → any (λ j. text_eq j k) (select p ks) ≡ true
any-select p [] k m h = elim m [ ]
any-select p (j ∷ ks) k (Memᴰ.head e) h =
    let passes : p j ≡ true = ap p (sym e) ∙ h in
    let same : text_eq j k ≡ true = ap (λ t. text_eq j t) e ∙ text_eq_self j in
    rw passes (rw same refl)
any-select p (j ∷ ks) k (Memᴰ.tail m) h =
    let ih = any-select p ks k m h in
    elim (Bool-cases (p j)) [ inl hit ↦ rw hit (ground (arith, ih)) | inr miss ↦ rw miss ih ]

pub any-append :
    (p : Text → Bool) (xs ys : List Text) → any p (xs ++ ys) ≡ (if any p xs then true else any p ys)
any-append p [] ys = refl
any-append p (x ∷ xs) ys = let ih = any-append p xs ys in ground arith

pub select-none :
    (p : Text → Bool) (ks : List Text) → ((k : Text) → Memᴰ k ks → p k ≡ false) → select p ks ≡ []
select-none p [] h = refl
select-none p (k ∷ ks) h =
    ap (λ b. if b then k ∷ select p ks else select p ks) (h k (Memᴰ.head refl))
    ∙ select-none p ks (λ j m. h j (Memᴰ.tail m))
