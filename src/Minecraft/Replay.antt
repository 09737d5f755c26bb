-- ===== src/Minecraft/Replay.antt =====
-- What is read of a client is kept as it came.
use quetzal.Prelude.{
  ℕ, zero, suc, Bool, true, false, not, ◌||◌, List, [], ◌∷◌, ◌++◌, ◌+◌, ◌-◌, ◌*◌, ◌%◌, ◌≡◌, ◌≤◌,
  ◌==◌, ltb, Error, ok, bind-ok, refuse_if-ok, ok-injective, arith, Bool-cases, inl, inr, ap, ◌∙◌,
  sym,
}
use quetzal.Minecraft.{
  read_rounds, read_var_int, read_full, payload_of, read_handshake_packet, parse_handshake,
  read_mc_handshake, Handshake, two_32, negative, max_handshake, in_packet, read_string, is_empty,
  state_status, state_transfer,
}
use mathlib.Core.List.{append_assoc}

read_rounds-raw :
    (n s v : ℕ) (bytes : List ℕ) {w : ℕ} {raw rest : List ℕ}
    → read_rounds n s v bytes ≡ ok (w, raw, rest)
    → raw ++ rest ≡ bytes
unfolding read_rounds
read_rounds-raw zero s v bytes h = cc
read_rounds-raw (suc n) s v [] h = cc
read_rounds-raw (suc n) s v (c ∷ bytes) {w} {raw} {rest} h = elim (Bool-cases (ltb c 128)) [
  | inl last ↦
      let e : ok (v + c % 128 * s % two_32, c ∷ [], bytes) ≡ ok (w, raw, rest) =
        rw (last, read_rounds) at h in
      sym (ap (λ q. q.1 ++ q.2) (ok-injective e))
  | inr more ↦
      let ((w', raw', rest'), later, e) =
        bind-ok (read_rounds n (s * 128) (v + c % 128 * s % two_32) bytes) _
          (rw (more, read_rounds) at h) in
      let tail = read_rounds-raw n (s * 128) (v + c % 128 * s % two_32) bytes later in
      sym (ap (λ q. q.1 ++ q.2) (ok-injective e)) ∙ ap (λ l. c ∷ l) tail
]

read_var_int-raw :
    (bytes : List ℕ) {w : ℕ} {raw rest : List ℕ}
    → read_var_int bytes ≡ ok (w, raw, rest)
    → raw ++ rest ≡ bytes
unfolding read_var_int
read_var_int-raw bytes h = read_rounds-raw 5 1 0 bytes h

read_full-raw :
    (n : ℕ) (bytes : List ℕ) {text rest : List ℕ}
    → read_full n bytes ≡ ok (text, rest)
    → text ++ rest ≡ bytes
read_full-raw zero bytes h = cc
read_full-raw (suc n) [] h = cc
read_full-raw (suc n) (c ∷ bytes) h =
    let ((text, left), later, e) = bind-ok (read_full n bytes) _ h in
    let tail = read_full-raw n bytes later in
    sym (ap (λ q. q.0 ++ q.1) (ok-injective e)) ∙ ap (λ l. c ∷ l) tail

payload_of-raw :
    (n : ℕ) (head bytes : List ℕ) {body raw rest : List ℕ}
    → payload_of n head bytes ≡ ok (body, raw, rest)
    → raw ++ rest ≡ head ++ bytes
payload_of-raw n head [] h = cc
payload_of-raw n head (id ∷ bytes) h =
    let (own, passed) = refuse_if-ok (not (id == 0)) Error.not_minecraft _ h in
    let ((text, left), read, e) = bind-ok (read_full (n - 1) bytes) _ passed in
    let tail = read_full-raw (n - 1) bytes read in
    sym (ap (λ q. q.1 ++ q.2) (ok-injective e))
    ∙ append_assoc head (id ∷ text) left
    ∙ ap (λ l. head ++ (id ∷ l)) tail

read_handshake_packet-raw :
    (bytes : List ℕ) {body raw rest : List ℕ}
    → read_handshake_packet bytes ≡ ok (body, raw, rest)
    → raw ++ rest ≡ bytes
unfolding read_handshake_packet
read_handshake_packet-raw bytes h =
    let ((n, head, tail), first, e) = bind-ok (read_var_int bytes) _ h in
    let (sized, passed) = refuse_if-ok _ Error.not_minecraft _ e in
    payload_of-raw n head tail passed ∙ read_var_int-raw bytes first

in_range :
    (left : Bool) (next : ℕ)
    → (left || (negative next || (ltb next state_status || ltb state_transfer next))) ≡ false
    → (1 ≤ next) × (next ≤ 3)
in_range true next fits = cc
in_range false next fits = (ground arith, ground arith)

module _ (valid : List ℕ → Bool) where
  parse_handshake-next :
      (raw body : List ℕ) {h : Handshake}
      → parse_handshake valid raw body ≡ ok h
      → (h.raw ≡ raw) × (1 ≤ h.next) × (h.next ≤ 3)
  unfolding parse_handshake
  parse_handshake-next raw body {h} e =
      let ((protocol, b1, r1), x1, e1) = bind-ok (in_packet (read_var_int body)) _ e in
      let ((address, r2), x2, e2) = bind-ok (in_packet (read_string valid max_handshake r1)) _ e1 in
      let ((port, r3), x3, e3) = bind-ok (in_packet (read_full 2 r2)) _ e2 in
      let ((next, b4, r4), x4, e4) = bind-ok (in_packet (read_var_int r3)) _ e3 in
      let (fits, done) =
        refuse_if-ok
          (not (is_empty r4)
            || (negative next || (ltb next state_status || ltb state_transfer next)))
          Error.not_minecraft _ e4 in
      let same = ok-injective done in
      let bounds = in_range (not (is_empty r4)) next fits in
      (
        sym (ap (λ q. q.raw) same),
        omega (arith, bounds.0, ap (λ q. q.next) same),
        omega (arith, bounds.1, ap (λ q. q.next) same),
      )

  -- A handshake that is read asks for the status, a login or a transfer, and its packet followed by
  -- what was not read is exactly what the client sent: nothing is lost when it is replayed.
  pub read_mc_handshake-raw :
      (bytes rest : List ℕ) (h : Handshake)
      → read_mc_handshake valid bytes ≡ ok (h, rest)
      → (h.raw ++ rest ≡ bytes) × (1 ≤ h.next) × (h.next ≤ 3)
  unfolding read_mc_handshake
  read_mc_handshake-raw bytes rest h e =
      let ((body, raw, left), packet, e1) = bind-ok (read_handshake_packet bytes) _ e in
      let (k, parsed, e2) = bind-ok (parse_handshake valid raw body) _ e1 in
      let (same, low, high) = parse_handshake-next raw body parsed in
      let is_h = ok-injective e2 in
      (
        sym (ap (λ q. q.0.raw ++ q.1) is_h)
            ∙ ap (λ r. r ++ left) same
            ∙ read_handshake_packet-raw bytes packet,
        omega (arith, low, ap (λ q. q.0.next) is_h),
        omega (arith, high, ap (λ q. q.0.next) is_h),
      )
