-- ===== src/Game/Framing.antt =====
-- server/game/src/main.cpp: `read_header` and `read_payload`, on the bytes that the peer has sent.
pub mod Stream
use game_x.Base.{
  ℕ, ◌+◌, ◌-◌, ◌%◌, ◌^◌, Bool, Option, none, some, ltb, leb, if◌then◌else◌, length, take, drop,
}
use game_x.Base.Bytes.{Bytes}
use game_x.Protocol.{PacketHeader}
use game_x.Protocol.Size
use game_x.Protocol.Codec.{get_header}
use game_x.Game.{Platform, Session}

-- `uint16_t payload_size = header_.size - sizeof(PacketHeader)` wraps below the header's own size.
unfoldable pub payload_size : PacketHeader → ℕ
payload_size h = (h.size + 2 ^ 16 - Size.header) % 2 ^ 16

module _ {p : Platform} where
  -- Where the header announces no payload, `payload_` keeps the bytes of the packet before.
  unfoldable pub read_payload : Session p → Bytes → Option (Session p × Bytes)
  read_payload s bs =
      let n = payload_size s.header in
      if ltb 0 n
      then (if leb n (length bs) then some (record s { payload = take n bs }, drop n bs) else none)
      else some (s, bs)

  -- One packet off the stream, with the bytes that are left; `none` while it is not complete.
  unfoldable pub read_packet : Session p → Bytes → Option (Session p × Bytes)
  read_packet s bs =
      if leb Size.header (length bs)
      then read_payload (record s { header = get_header bs }) (drop Size.header bs)
      else none
