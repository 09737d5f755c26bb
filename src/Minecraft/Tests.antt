-- ===== src/Minecraft/Tests.antt =====
-- A player's first packet, and the results of Minecraft on it.
use quetzal.Prelude.{
  ℕ, Bool, true, List, [], ◌∷◌, ◌++◌, ◌+◌, ◌*◌, ◌≡◌, ◌≤◌, ◌<◌, ok, refl, arith, length,
}
use quetzal.Minecraft.{Handshake, append_var_int, append_string, write_packet, read_mc_handshake}
use quetzal.Minecraft.Replay.{read_mc_handshake-raw}
use quetzal.Minecraft.RoundTrip.{handshake_body, read-write_handshake}

abbrev any_text : List ℕ → Bool
any_text text = true

-- Protocol 763, the address "mc", port 25565, a login, and the first byte of the next packet.
abbrev packet : List ℕ
packet = 9 ∷ 0 ∷ 251 ∷ 5 ∷ 2 ∷ 109 ∷ 99 ∷ 99 ∷ 221 ∷ 2 ∷ []

abbrev player : Handshake
player = record { raw = packet; protocol = 763; address = 109 ∷ 99 ∷ []; port = 25565; next = 2 }

player_read : read_mc_handshake any_text (packet ++ (7 ∷ [])) ≡ ok (player, 7 ∷ [])
unfolding read_mc_handshake
player_read = refl

read_mc_handshake-raw_example :
    (player.raw ++ (7 ∷ []) ≡ packet ++ (7 ∷ [])) × (1 ≤ player.next) × (player.next ≤ 3)
read_mc_handshake-raw_example =
    read_mc_handshake-raw any_text (packet ++ (7 ∷ [])) (7 ∷ []) player player_read

fits : length (handshake_body 763 (109 ∷ 99 ∷ []) 99 221 2) < 2048
unfolding append_var_int append_string
fits = omega arith

read-write_handshake_example :
    read_mc_handshake any_text
      (write_packet 0 (handshake_body 763 (109 ∷ 99 ∷ []) 99 221 2) ++ (7 ∷ []))
    ≡ ok (
      record {
        raw = write_packet 0 (handshake_body 763 (109 ∷ 99 ∷ []) 99 221 2);
        protocol = 763;
        address = 109 ∷ 99 ∷ [];
        port = 99 * 256 + 221;
        next = 2;
      },
      7 ∷ [],
    )
read-write_handshake_example =
    read-write_handshake any_text (109 ∷ 99 ∷ []) (7 ∷ []) 763 99 221 2 (omega arith) (omega arith)
      refl (omega arith) (omega arith) fits
