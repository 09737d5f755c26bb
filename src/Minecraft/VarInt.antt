-- ===== src/Minecraft/VarInt.antt =====
-- A VarInt that is written is read back, and nothing after it is consumed.
use quetzal.Prelude.{
  ℕ, zero, suc, true, false, List, [], ◌∷◌, ◌++◌, ◌+◌, ◌*◌, ◌/◌, ◌%◌, ◌≡◌, ◌<◌, ltb, ok, arith,
  Bool-cases, inl, inr, refl, ap, ◌∙◌, ltb→lt,
}
use native.Mathlib.Nat.{add-mul, mul_assoc, mul_right_comm, mod-eq_of_lt}
use quetzal.Minecraft.{read_rounds, read_var_int, var_bytes, append_var_int, two_32}

abbrev cap : ℕ → ℕ
cap zero = 1
cap (suc n) = 128 * cap n

parts : (u : ℕ) → u ≡ u % 128 + u / 128 * 128
parts u = omega arith

-- The seven low bits and the others, each at its place.
scaled : (u s : ℕ) → u * s ≡ u % 128 * s + u / 128 * (s * 128)
scaled u s =
    ap (λ w. w * s) (parts u)
    ∙ add-mul (u % 128) (u / 128 * 128) s
    ∙ ap (λ w. u % 128 * s + w) (mul_right_comm (u / 128) 128 s ∙ mul_assoc (u / 128) s 128)

low_bits : (u s : ℕ) → u * s < two_32 → u % 128 * s % two_32 ≡ u % 128 * s
low_bits u s small = mod-eq_of_lt (omega (arith, scaled u s, small))

last_byte :
    (n u v s : ℕ) (rest : List ℕ)
    → ltb u 128 ≡ true
    → u * s < two_32
    → read_rounds (suc n) s v (u ∷ rest) ≡ ok (v + u * s, u ∷ [], rest)
unfolding read_rounds
last_byte n u v s rest short small =
    let same : u % 128 ≡ u = mod-eq_of_lt (ltb→lt u 128 short) in
    let low : u % 128 * s % two_32 ≡ u * s = low_bits u s small ∙ ap (λ w. w * s) same in
    rw (short, low) refl

more_bytes :
    (n u v s w : ℕ) (tail bs rest : List ℕ)
    → u * s < two_32
    → read_rounds n (s * 128) (v + u % 128 * s) tail ≡ ok (w, bs, rest)
    → read_rounds (suc n) s v ((u % 128 + 128) ∷ tail) ≡ ok (w, (u % 128 + 128) ∷ bs, rest)
unfolding read_rounds
more_bytes n u v s w tail bs rest small later =
    let bits : (u % 128 + 128) % 128 ≡ u % 128 = omega arith in
    let long : ltb (u % 128 + 128) 128 ≡ false = ground arith in
    rw (long, bits) (rw (low_bits u s small) (rw later refl))

-- With enough rounds, what is written is read, at the place where the reader is.
read-var_bytes :
    (n u v s : ℕ) (rest : List ℕ)
    → u < cap (suc n)
    → u * s < two_32
    → read_rounds (suc n) s v (var_bytes (suc n) u ++ rest)
      ≡ ok (v + u * s, var_bytes (suc n) u, rest)
unfolding var_bytes
read-var_bytes zero u v s rest fits small =
    let short : ltb u 128 ≡ true = ground arith in
    rw (short, var_bytes) (last_byte 0 u v s rest short small)
read-var_bytes (suc n) u v s rest fits small = elim (Bool-cases (ltb u 128)) [
  | inl short ↦ rw (short, var_bytes) (last_byte (suc n) u v s rest short small)
  | inr long ↦
      let sum : v + u % 128 * s + u / 128 * (s * 128) ≡ v + u * s = omega (arith, scaled u s) in
      let later =
        read-var_bytes n (u / 128) (v + u % 128 * s) (s * 128) rest (omega arith)
          (omega (arith, scaled u s, small)) in
      rw (long, var_bytes)
        (more_bytes (suc n) u v s (v + u * s) _ _ rest small
          (later ∙ ap (λ w. ok (w, var_bytes (suc n) (u / 128), rest)) sum))
]

-- A VarInt of 32 bits that is appended is read back with its own bytes, and what follows is left.
pub read-append_var_int :
    (u : ℕ) (rest : List ℕ)
    → u < two_32
    → read_var_int (append_var_int [] u ++ rest) ≡ ok (u, append_var_int [] u, rest)
unfolding read_var_int append_var_int
read-append_var_int u rest small =
    let same : 0 + u * 1 ≡ u = omega arith in
    read-var_bytes 4 u 0 1 rest (omega arith) (omega arith)
    ∙ ap (λ w. ok (w, var_bytes 5 u, rest)) same
