-- ===== src/Minecraft/RoundTrip.antt =====
-- A client's handshake is read as it was written.
use quetzal.Prelude.{
  ℕ, suc, Bool, true, not, ◌||◌, List, [], ◌∷◌, ◌++◌, ◌+◌, ◌-◌, ◌*◌, ◌≡◌, ◌≤◌, ◌<◌, ltb, length,
  length-append, Result, Error, ok, ◌>>◌, refuse_if, ok-bind, ok-refuse_if, arith, refl, ap, ◌∙◌,
}
use quetzal.Minecraft.{
  read_var_int, append_var_int, append_string, write_packet, read_full, payload_of,
  read_handshake_packet, parse_handshake, read_mc_handshake, two_32, negative, max_handshake,
  in_packet, read_string, is_empty, state_status, state_transfer,
}
use quetzal.Minecraft.VarInt.{read-append_var_int}
use mathlib.Core.List.{append_assoc}

read_full-append : (text rest : List ℕ) → read_full (length text) (text ++ rest) ≡ ok (text, rest)
read_full-append [] rest = refl
read_full-append (c ∷ text) rest = ok-bind _ _ (read_full-append text rest) refl

payload_of-append :
    (head body rest : List ℕ)
    → payload_of (suc (length body)) head (0 ∷ (body ++ rest)) ≡ ok (body, head ++ (0 ∷ body), rest)
payload_of-append head body rest =
    let less : suc (length body) - 1 ≡ length body = omega arith in
    rw less (
      ok-bind (read_full (length body) (body ++ rest)) (λ r. ok (r.0, head ++ (0 ∷ r.0), r.1))
        (read_full-append body rest) refl)

-- The packet of id 0 around a body.
read-write_packet :
    (body rest : List ℕ)
    → length body < max_handshake
    → read_handshake_packet (write_packet 0 body ++ rest) ≡ ok (body, write_packet 0 body, rest)
unfolding read_handshake_packet write_packet
read-write_packet body rest small =
    ap read_handshake_packet (append_assoc (append_var_int [] (suc (length body))) (0 ∷ body) rest)
    ∙ ok-bind _ _ (read-append_var_int (suc (length body)) (0 ∷ (body ++ rest)) (omega arith)) (
        ok-refuse_if _ _ _ (ground arith)
          (payload_of-append (append_var_int [] (suc (length body))) body rest))

in_packet-ok {ℓ} : {A : Type ℓ} (r : Result A) {a : A} → r ≡ ok a → in_packet r ≡ ok a
in_packet-ok r e = ap in_packet e

-- The body of a handshake, as a client writes it.
abbrev pub handshake_body : ℕ → List ℕ → ℕ → ℕ → ℕ → List ℕ
handshake_body protocol address hi lo next =
    append_var_int [] protocol
    ++ (append_string [] address ++ (hi ∷ lo ∷ (append_var_int [] next ++ [])))

module _ (valid : List ℕ → Bool) where
  read-append_string :
      (text rest : List ℕ)
      → length text ≤ max_handshake
      → valid text ≡ true
      → read_string valid max_handshake (append_string [] text ++ rest) ≡ ok (text, rest)
  unfolding read_string append_string
  read-append_string text rest short good =
      ap (read_string valid max_handshake)
        (append_assoc (append_var_int [] (length text)) text rest)
      ∙ ok-bind _ _
          (in_packet-ok _ (read-append_var_int (length text) (text ++ rest) (omega (arith, short))))
          (ok-refuse_if _ _ _ (ground (arith, short, length-append text rest))
            (ok-bind _ _ (read_full-append text rest) (ok-refuse_if _ _ _ (ap not good) refl)))

  parse-body :
      (raw address : List ℕ) (protocol hi lo next : ℕ)
      → protocol < two_32
      → length address ≤ max_handshake
      → valid address ≡ true
      → 1 ≤ next
      → next ≤ 3
      → parse_handshake valid raw (handshake_body protocol address hi lo next)
        ≡ ok (record {
          raw = raw;
          protocol = protocol;
          address = address;
          port = hi * 256 + lo;
          next = next;
        })
  unfolding parse_handshake
  parse-body raw address protocol hi lo next small short good low high =
      ok-bind _ _ (in_packet-ok _ (read-append_var_int protocol _ small)) (
        ok-bind _ _ (in_packet-ok _ (read-append_string address _ short good)) (
          ok-bind (in_packet (read_var_int (append_var_int [] next ++ [])))
            (λ r.
              refuse_if
                (not (is_empty r.2)
                  || (negative r.0 || (ltb r.0 state_status || ltb state_transfer r.0)))
                Error.not_minecraft
              >> ok (record {
                raw = raw;
                protocol = protocol;
                address = address;
                port = hi * 256 + lo;
                next = r.0;
              }))
            (in_packet-ok _ (read-append_var_int next [] (omega (arith, high))))
            (ok-refuse_if (negative next || (ltb next state_status || ltb state_transfer next))
              Error.not_minecraft _ (ground (arith, low, high)) refl)))

  -- A handshake that a client writes -- a protocol version of 32 bits, a valid address, a port of two
  -- bytes and a state from 1 to 3, in a packet within the bound -- is read with these values and the
  -- packet's bytes, and what the client sends after it is left.
  pub read-write_handshake :
      (address rest : List ℕ) (protocol hi lo next : ℕ)
      → protocol < two_32
      → length address ≤ max_handshake
      → valid address ≡ true
      → 1 ≤ next
      → next ≤ 3
      → length (handshake_body protocol address hi lo next) < max_handshake
      → read_mc_handshake valid
          (write_packet 0 (handshake_body protocol address hi lo next) ++ rest)
        ≡ ok (
          record {
            raw = write_packet 0 (handshake_body protocol address hi lo next);
            protocol = protocol;
            address = address;
            port = hi * 256 + lo;
            next = next;
          },
          rest,
        )
  unfolding read_mc_handshake
  read-write_handshake address rest protocol hi lo next small short good low high fits =
      ok-bind _ _ (read-write_packet (handshake_body protocol address hi lo next) rest fits) (
        ok-bind _ _
          (parse-body (write_packet 0 (handshake_body protocol address hi lo next)) address protocol
            hi lo next small short good low high)
          refl)
