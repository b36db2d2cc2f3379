-- ===== src/Game/Framing/Stream.antt =====
-- server/game/src/main.cpp: `read_header` and `read_payload` against the packets that clients write.
use game_x.Base.{
  ℕ, ◌+◌, ◌^◌, ◌<◌, ◌≡◌, refl, ◌∙◌, ◌++◌, none, some, true, arith, leb, lt→ltb, le→leb, length,
  take-append, drop-append, length-append,
}
use game_x.Base.Bytes.{Bytes}
use game_x.Protocol.{PacketHeader}
use game_x.Protocol.Size
use game_x.Protocol.Codec.{put_header}
use game_x.Protocol.RoundTrip.{get_header-put_header, length-put_header}
use game_x.Game.{Platform, Session}
use game_x.Game.Framing.{payload_size, read_payload, read_packet}

abbrev pub header_of : ℕ → ℕ → PacketHeader
header_of op n = record { size = Size.header + n; opcode = op }

payload_size-header_of : (op n : ℕ) → n + 4 < 2 ^ 16 → payload_size (header_of op n) ≡ n
unfolding payload_size
payload_size-header_of op n h = omega arith

module _ {p : Platform} where
  read_packet-header :
      (s : Session p) (h : PacketHeader) (bs : Bytes)
      → h.size < 2 ^ 16
      → h.opcode < 2 ^ 16
      → read_packet s (put_header h ++ bs) ≡ read_payload (record s { header = h }) bs
  unfolding read_packet
  read_packet-header s h bs fits op_fits =
      let long : leb 4 (length (put_header h ++ bs)) ≡ true =
        le→leb 4 _ (omega (arith, length-append (put_header h) bs, length-put_header h)) in
      rw (
        long,
        get_header-put_header h bs fits op_fits,
        drop-append (put_header h) bs 4 (length-put_header h),
      )

  read_payload-body :
      (s : Session p) (body rest : Bytes)
      → 0 < length body
      → payload_size s.header ≡ length body
      → read_payload s (body ++ rest) ≡ some (record s { payload = body }, rest)
  unfolding read_payload
  read_payload-body s body rest some_body size =
      let enough : leb (length body) (length (body ++ rest)) ≡ true =
        le→leb _ _ (omega (arith, length-append body rest)) in
      rw (
        size,
        lt→ltb 0 (length body) some_body,
        enough,
        take-append body rest (length body) refl,
        drop-append body rest (length body) refl,
      )

  -- A packet with a payload and a size of 16 bits is cut off the stream whole: its header and its
  -- payload replace those of the packet before, and the bytes behind it are left.
  pub read_packet-payload :
      (s : Session p) (op : ℕ) (body rest : Bytes)
      → 0 < length body
      → length body + 4 < 2 ^ 16
      → op < 2 ^ 16
      → read_packet s (put_header (header_of op (length body)) ++ (body ++ rest))
        ≡ some (record s { header = header_of op (length body); payload = body }, rest)
  read_packet-payload s op body rest some_body fits op_fits =
      read_packet-header s (header_of op (length body)) (body ++ rest) (omega arith) op_fits
      ∙ read_payload-body (record s { header = header_of op (length body) }) body rest some_body
          (payload_size-header_of op (length body) fits)

  -- A packet that is a header alone is complete with the payload of the packet before it.
  pub read_packet_stale :
      (s : Session p) (op : ℕ) (rest : Bytes)
      → op < 2 ^ 16
      → read_packet s (put_header (header_of op 0) ++ rest)
        ≡ some (record s { header = header_of op 0 }, rest)
  unfolding read_payload payload_size
  read_packet_stale s op rest op_fits =
      read_packet-header s (header_of op 0) rest (omega arith) op_fits

  -- A header that announces a size below 4 is not a complete packet until 65532 bytes have come
  -- behind it.
  pub read_packet_undersized :
      (s : Session p) (size op : ℕ) (rest : Bytes)
      → size < 4
      → op < 2 ^ 16
      → length rest < 65532
      → read_packet s (put_header (record { size = size; opcode = op }) ++ rest) ≡ none
  unfolding read_payload payload_size
  read_packet_undersized s size op rest small op_fits short =
      let h : PacketHeader = record { size = size; opcode = op } in
      read_packet-header s h rest (omega arith) op_fits ∙ ground arith
