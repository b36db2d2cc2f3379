-- ===== src/Game/Packets/Sizes.antt =====
-- server/game/src/main.cpp: what `send_chat` and the other senders put on the wire, read back.
use game_x.Base.{
  ℕ, ◌+◌, ◌%◌, ◌^◌, ◌≤◌, ◌<◌, ◌≡◌, ap, sym, ◌∙◌, [], ◌∷◌, ◌++◌, some, arith, length, take, drop,
  length-append, drop-append_two, append_assoc,
}
use game_x.Base.Bytes.{Bytes, put_u16, get_u16}
use game_x.Protocol.{Opcode, opcode, max_chat_message_len}
use game_x.Protocol.Size
use game_x.Protocol.Text.{strncpy, c_string, IsText, length-strncpy, c_string-strncpy}
use game_x.Protocol.Codec.{put_header, get_header, put_chat_recv, get_chat_recv}
use game_x.Protocol.RoundTrip.{get_header-put_header, length-put_header}
use game_x.Game.Packets.{packet, chat_packet}

opcode-fits : (op : Opcode) → opcode op < 2 ^ 16
opcode-fits op = ground arith

length-packet : (op : Opcode) (body : Bytes) → length (packet op body) ≡ Size.header + length body
unfolding packet
length-packet op body =
    length-append (put_header _) body ∙ ap (λ n. n + length body) (length-put_header _)

-- The header of a packet that the game server writes announces the packet's exact length and its
-- opcode, where the body leaves room for the length in 16 bits.
pub get_header-packet :
    (op : Opcode) (body rest : Bytes)
    → length body + 4 < 2 ^ 16
    → get_header (packet op body ++ rest)
      ≡ record { size = length (packet op body); opcode = opcode op }
unfolding packet
get_header-packet op body rest fits =
    rw
      (append_assoc (put_header (record { size = Size.header + length body; opcode = opcode op }))
        body rest)
      (get_header-put_header _ (body ++ rest) (omega arith) (opcode-fits op)
        ∙ ap (λ n. record { size = n; opcode = opcode op }) (sym (length-packet op body)))

-- The body of a chat packet, in the order of its bytes.
chat_body :
    (code : ℕ) (sender message : Bytes)
    → put_chat_recv (record { channel = code; sender = strncpy 31 sender ++ (0 ∷ []) }) ++ message
      ≡ (code % 256) ∷ (strncpy 31 sender ++ (0 ∷ message))
unfolding put_chat_recv
chat_body code sender message =
    ap (◌∷◌ (code % 256)) (append_assoc (strncpy 31 sender) (0 ∷ []) message)

drop-chat_body :
    (code : ℕ) (sender message : Bytes)
    → drop Size.chat_recv ((code % 256) ∷ (strncpy 31 sender ++ (0 ∷ message))) ≡ message
drop-chat_body code sender message =
    drop-append_two (strncpy 31 sender) (0 ∷ []) message 32
      (omega (arith, length-strncpy 31 sender))

-- A client finds in a chat packet its exact length, the channel, the first 31 bytes of the sender's
-- name and the whole message, for a name without NULs and a message of at most 255 bytes.
pub chat_packet_read :
    (code : ℕ) (sender message : Bytes)
    → code < 256
    → IsText sender
    → length message ≤ max_chat_message_len
    → let whole = chat_packet code sender message in
      let payload = drop Size.header whole in
      ((get_header whole).size ≡ length whole)
      × ((get_chat_recv payload).channel ≡ code)
      × (c_string (drop 1 payload) ≡ some (take 31 sender))
      × (drop Size.chat_recv payload ≡ message)
unfolding chat_packet packet get_header get_chat_recv put_header put_u16 get_u16
chat_packet_read code sender message fits text short = rw (chat_body code sender message) (
  omega (arith, length-append (strncpy 31 sender) (0 ∷ message), length-strncpy 31 sender),
  omega arith,
  c_string-strncpy 31 sender message text,
  drop-chat_body code sender message,
)
