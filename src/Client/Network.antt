-- ===== src/Client/Network.antt =====
-- client/src/NetworkManager.cpp: the connection of the client, on the network thread's strand.
pub mod Stream
pub mod Rounds
use game_x.Base.{
  ℕ, zero, suc, ◌+◌, ◌-◌, ◌++◌, Bool, true, false, List, [], ◌∷◌, Option, none, some, ltb, leb,
  if◌then◌else◌, length, take, drop,
}
use game_x.Base.Bytes.{Bytes}
use game_x.Protocol.{PacketHeader}
use game_x.Protocol.Size
use game_x.Protocol.Codec.{put_header, get_header}
use game_x.Client.{InboundPacket}
use game_x.Client.Mailbox.{push}

-- A `NetworkManager`: whether `socket_` is there and open, the packet that is being read, and the
-- mailbox.
pub record Network : Type 0 where
  pub is_open : Bool
  pub incoming_header : PacketHeader
  pub incoming_payload : Bytes
  pub inbound_queue : List InboundPacket

-- `readPayload`, on the bytes behind the header; `none` while they have not all come.
unfoldable pub read_payload_of : Network → ℕ → Bytes → Option (Network × Bytes)
read_payload_of net size bs =
    if leb size (length bs)
    then some (
      record net {
        incoming_payload = take size bs;
        inbound_queue =
            push net.inbound_queue
              (record { header = net.incoming_header; payload = take size bs });
      },
      drop size bs,
    )
    else none

-- The handler of a header that has been read.
unfoldable pub on_header : Network → Bytes → Option (Network × Bytes)
on_header net bs =
    if ltb Size.header net.incoming_header.size
    then read_payload_of net (net.incoming_header.size - Size.header) bs
    else some (
      record net {
        inbound_queue =
            push net.inbound_queue (record { header = net.incoming_header; payload = [] });
      },
      bs,
    )

-- `startRead`: one packet off the stream into the mailbox.
unfoldable pub start_read : Network → Bytes → Option (Network × Bytes)
start_read net bs =
    if net.is_open
    then (if leb Size.header (length bs)
        then on_header (record net { incoming_header = get_header bs }) (drop Size.header bs)
        else none)
    else none

-- `startRead` calls itself through the handlers. Each round takes a header off the bytes, so that the
-- length of the bytes is fuel enough.
unfoldable pub read_rounds : ℕ → Network → Bytes → Network × Bytes
read_rounds zero net bs = (net, bs)
read_rounds (suc n) net bs = elim (start_read net bs) [
  | none ↦ (net, bs)
  | some r ↦ read_rounds n r.0 r.1
]

unfoldable pub read_stream : Network → Bytes → Network × Bytes
read_stream net bs = read_rounds (length bs) net bs

-- `disconnect`, with the socket closed and gone.
unfoldable pub disconnect : Network → Network
disconnect net = if net.is_open then record net { is_open = false } else net

-- The end of `connect`: the handler of an attempt that succeeded.
unfoldable pub connected : Network → Network
connected net = record net { is_open = true }

-- `sendPacket`, of a payload that is there: what is written, if anything.
unfoldable pub send_packet : Network → PacketHeader → Bytes → Option Bytes
send_packet net header payload = if net.is_open then some (put_header header ++ payload) else none
