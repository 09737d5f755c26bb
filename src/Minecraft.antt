-- ===== src/Minecraft.antt =====
-- Minecraft Java Edition's first packets, as the activator reads them (cmd/activator/minecraft.go). A
-- byte is a number below 256, and a reader is the list of the bytes that it has left.
pub mod VarInt
pub mod Replay
pub mod RoundTrip
mod Tests
use quetzal.Prelude.{
  ℕ, zero, suc, String, Bool, true, false, not, ◌&&◌, ◌||◌, Option, none, some, List, [], ◌∷◌, ◌++◌,
  ◌+◌, ◌-◌, ◌*◌, ◌/◌, ◌%◌, ◌==◌, if◌then◌else◌, ltb, leb, length, Result, Error, ok, err, ◌>>=◌,
  ◌>>◌, refuse_if, or_error, drop,
}

-- A value of 32 bits; `int32` is its two's complement.
abbrev pub two_32 : ℕ
two_32 = 4294967296

abbrev pub negative : ℕ → Bool
negative v = leb 2147483648 v

-- The loop of `readVarInt` with `rounds` left: `scale` is 2^(7 i). The new bits are above those of
-- `v`, so `|=` is a sum. The result is the value, the bytes it was made of, and the bytes left.
unfoldable pub read_rounds : ℕ → ℕ → ℕ → List ℕ → Result (ℕ × List ℕ × List ℕ)
read_rounds zero scale v bytes = err Error.not_minecraft
read_rounds (suc rounds) scale v [] = err Error.end_of_input
read_rounds (suc rounds) scale v (c ∷ rest) =
    let sum : ℕ = v + c % 128 * scale % two_32 in
    let later = read_rounds rounds (scale * 128) sum rest in
    if ltb c 128 then ok (sum, c ∷ [], rest) else later >>= λ r. ok (r.0, c ∷ r.1, r.2)

unfoldable pub read_var_int : List ℕ → Result (ℕ × List ℕ × List ℕ)
unfolding read_rounds
read_var_int bytes = read_rounds 5 1 0 bytes

-- The loop of `appendVarInt`: a value of 32 bits has at most five bytes.
unfoldable pub var_bytes : ℕ → ℕ → List ℕ
var_bytes zero u = []
var_bytes (suc rounds) u =
    let later = var_bytes rounds (u / 128) in if ltb u 128 then u ∷ [] else (u % 128 + 128) ∷ later

unfoldable pub append_var_int : List ℕ → ℕ → List ℕ
unfolding var_bytes
append_var_int b v = b ++ var_bytes 5 v

-- `io.ReadFull` on `n` bytes.
abbrev pub read_full : ℕ → List ℕ → Result (List ℕ × List ℕ)
read_full zero bytes = ok ([], bytes)
read_full (suc n) [] = err Error.end_of_input
read_full (suc n) (c ∷ bytes) = read_full n bytes >>= λ r. ok (c ∷ r.0, r.1)

abbrev pub max_handshake : ℕ
max_handshake = 2048

-- The rest of a packet of `n` bytes, whose id must be 0; `head` was read before it.
abbrev pub payload_of : ℕ → List ℕ → List ℕ → Result (List ℕ × List ℕ × List ℕ)
payload_of n head [] = err Error.end_of_input
payload_of n head (id ∷ rest) =
    refuse_if (not (id == 0)) Error.not_minecraft
    >> (read_full (n - 1) rest >>= λ r. ok (r.0, head ++ (id ∷ r.0), r.1))

-- The body of the first packet, its bytes as received, and the bytes left.
unfoldable pub read_handshake_packet : List ℕ → Result (List ℕ × List ℕ × List ℕ)
unfolding read_var_int
read_handshake_packet bytes = do
  (n, head, rest) ← read_var_int bytes
  refuse_if ((n == 0) || (negative n || ltb max_handshake n)) Error.not_minecraft
  payload_of n head rest

-- A failure to read in the packet's body.
abbrev pub in_packet {ℓ} : {A : Type ℓ} → Result A → Result A
in_packet (ok a) = ok a
in_packet (err e) = err Error.not_minecraft

-- `binary.BigEndian.Uint16`.
abbrev pub big_endian : List ℕ → ℕ
big_endian [] = 0
big_endian (hi ∷ []) = hi
big_endian (hi ∷ lo ∷ more) = hi * 256 + lo

pub record Handshake : Type 0 where
  pub raw : List ℕ
  pub protocol : ℕ
  pub address : List ℕ
  pub port : ℕ
  pub next : ℕ

abbrev pub state_status : ℕ
state_status = 1

abbrev pub state_login : ℕ
state_login = 2

abbrev pub state_transfer : ℕ
state_transfer = 3

unfoldable pub joining : Handshake → Bool
joining h = (h.next == state_login) || (h.next == state_transfer)

abbrev pub is_empty : List ℕ → Bool
is_empty [] = true
is_empty (c ∷ bytes) = false

-- `utf8.Valid` is an argument.
module _ (valid : List ℕ → Bool) where
  unfoldable pub read_string : ℕ → List ℕ → Result (List ℕ × List ℕ)
  unfolding read_var_int
  read_string max bytes = do
    (n, head, rest) ← in_packet (read_var_int bytes)
    refuse_if (negative n || (ltb max n || ltb (length rest) n)) Error.not_minecraft
    (text, left) ← read_full n rest
    refuse_if (not (valid text)) Error.not_minecraft
    ok (text, left)

  -- The handshake in the body of a packet whose bytes are `raw`.
  unfoldable pub parse_handshake : List ℕ → List ℕ → Result Handshake
  unfolding read_string read_var_int
  parse_handshake raw body = do
    (protocol, b1, r1) ← in_packet (read_var_int body)
    (address, r2) ← in_packet (read_string max_handshake r1)
    (port, r3) ← in_packet (read_full 2 r2)
    (next, b4, r4) ← in_packet (read_var_int r3)
    refuse_if
        (not (is_empty r4) || (negative next || (ltb next state_status || ltb state_transfer next)))
        Error.not_minecraft
    ok (record {
      raw = raw;
      protocol = protocol;
      address = address;
      port = big_endian port;
      next = next;
    })

  -- The handshake that a client's bytes start with, and the bytes that are not read.
  unfoldable pub read_mc_handshake : List ℕ → Result (Handshake × List ℕ)
  unfolding read_handshake_packet parse_handshake
  read_mc_handshake bytes = do
    (body, raw, rest) ← read_handshake_packet bytes
    h ← parse_handshake raw body
    ok (h, rest)

unfoldable pub append_string : List ℕ → List ℕ → List ℕ
unfolding append_var_int
append_string b s = append_var_int b (length s) ++ s

-- The bytes of a packet, its length before it.
unfoldable pub write_packet : ℕ → List ℕ → List ℕ
unfolding append_var_int
write_packet id body =
    let packet = append_var_int [] id ++ body in append_var_int [] (length packet) ++ packet
