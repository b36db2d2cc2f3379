-- ===== src/Client.antt =====
-- client/src: the network manager and the logic thread, which share the mailbox of inbound packets.
pub mod Mailbox
pub mod Network
pub mod Logic
pub mod Examples
use game_x.Base.Bytes.{Bytes}
use game_x.Protocol.{PacketHeader}

pub record InboundPacket : Type 0 where
  pub header : PacketHeader
  pub payload : Bytes
