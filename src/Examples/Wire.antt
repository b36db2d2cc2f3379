-- ===== src/Examples/Wire.antt =====
-- The theorems on packets, strings and movement, applied to small packets.
use game_x.Base.{◌≡◌, refl, [], ◌∷◌, ◌++◌, none, some, length, take, drop, arith}
use game_x.Protocol.Size
use game_x.Protocol.Text.{c_string}
use game_x.Protocol.Codec.{put_header, get_header, get_chat_recv}
use game_x.Game.Framing.{read_packet}
use game_x.Game.Framing.Stream.{
  header_of, read_packet-payload, read_packet_stale, read_packet_undersized,
}
use game_x.Game.Packets.{chat_packet}
use game_x.Game.Packets.Sizes.{chat_packet_read}
use game_x.Examples.Fixture.{bob, auth_session}

read_packet-payload_example :
    read_packet auth_session (put_header (header_of 5 3) ++ (bob ++ (1 ∷ [])))
    ≡ some (record auth_session { header = header_of 5 3; payload = bob }, 1 ∷ [])
read_packet-payload_example =
    read_packet-payload auth_session 5 bob (1 ∷ []) (omega arith) (omega arith) (omega arith)

read_packet_stale_example :
    read_packet auth_session (put_header (header_of 0x0100 0) ++ (1 ∷ []))
    ≡ some (record auth_session { header = header_of 0x0100 0 }, 1 ∷ [])
read_packet_stale_example = read_packet_stale auth_session 0x0100 (1 ∷ []) (omega arith)

read_packet_undersized_example :
    read_packet auth_session (put_header (record { size = 3; opcode = 1 }) ++ bob) ≡ none
read_packet_undersized_example =
    read_packet_undersized auth_session 3 1 bob (omega arith) (omega arith) (omega arith)

chat_packet_read_example :
    let whole = chat_packet 1 bob (104 ∷ 105 ∷ []) in
    let payload = drop Size.header whole in
    ((get_header whole).size ≡ length whole)
    × ((get_chat_recv payload).channel ≡ 1)
    × (c_string (drop 1 payload) ≡ some (take 31 bob))
    × (drop Size.chat_recv payload ≡ 104 ∷ 105 ∷ [])
chat_packet_read_example =
    chat_packet_read 1 bob (104 ∷ 105 ∷ []) (omega arith) (refl, (refl, (refl, tt))) (omega arith)
