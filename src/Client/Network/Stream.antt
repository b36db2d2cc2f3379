-- ===== src/Client/Network/Stream.antt =====
-- client/src/NetworkManager.cpp: what the read loop puts into the mailbox.
use game_x.Base.{
  ℕ, zero, suc, ◌+◌, ◌-◌, ◌^◌, ◌≤◌, ◌<◌, ◌≡◌, refl, sym, ◌∙◌, true, List, [], ◌∷◌, ◌++◌, none, some,
  All, map, arith, ltb, leb, le→leb, lt→ltb, length, take-append, drop-append, length-append,
  append_assoc, append-nil, concat_map,
}
use game_x.Base.Bytes.{Bytes}
use game_x.Protocol.{PacketHeader}
use game_x.Protocol.Size
use game_x.Protocol.Codec.{put_header}
use game_x.Protocol.RoundTrip.{get_header-put_header, length-put_header}
use game_x.Client.{InboundPacket}
use game_x.Client.Mailbox.{push}
use game_x.Client.Network.{
  Network, read_payload_of, on_header, start_read, read_rounds, read_stream,
}

-- A packet on the wire: an opcode and a payload.
pub record Frame : Type 0 where
  pub op : ℕ
  pub body : Bytes

abbrev pub frame_header : Frame → PacketHeader
frame_header f = record { size = Size.header + length f.body; opcode = f.op }

abbrev pub frame_bytes : Frame → Bytes
frame_bytes f = put_header (frame_header f) ++ f.body

abbrev pub inbound : Frame → InboundPacket
inbound f = record { header = frame_header f; payload = f.body }

-- The fields of the header hold the size and the opcode.
abbrev pub IsFrame : Frame → Type 0
IsFrame f = (length f.body + 4 < 2 ^ 16) × (f.op < 2 ^ 16)

-- The network manager after a packet.
abbrev put_inbound : Network → Frame → Bytes → Network
put_inbound net f payload = record net {
  incoming_header = frame_header f;
  incoming_payload = payload;
  inbound_queue = net.inbound_queue ++ (inbound f ∷ []);
}

abbrev last_payload : Network → Bytes → Bytes
last_payload net [] = net.incoming_payload
last_payload net (b ∷ body) = b ∷ body

on_header-frame :
    (net : Network) (op : ℕ) (body rest : Bytes)
    → on_header
        (record net { incoming_header = frame_header (record { op = op; body = body }) })
        (body ++ rest)
      ≡ some (put_inbound net (record { op = op; body = body }) (last_payload net body), rest)
unfolding on_header read_payload_of push
on_header-frame net op [] rest = refl
on_header-frame net op (b ∷ body) rest =
    let whole = b ∷ body in
    let big : ltb 4 (4 + length whole) ≡ true = lt→ltb 4 _ (omega arith) in
    let size : 4 + length whole - 4 ≡ length whole = omega arith in
    let enough : leb (length whole) (length (whole ++ rest)) ≡ true =
      le→leb _ _ (omega (arith, length-append whole rest)) in
    rw (
      big,
      size,
      enough,
      take-append whole rest (length whole) refl,
      drop-append whole rest (length whole) refl,
    )

start_read-frame :
    (net : Network) (f : Frame) (rest : Bytes)
    → net.is_open ≡ true
    → IsFrame f
    → start_read net (frame_bytes f ++ rest)
      ≡ some (put_inbound net f (last_payload net f.body), rest)
unfolding start_read
start_read-frame net f rest opened (fits, op_fits) =
    let bytes = put_header (frame_header f) in
    let behind = f.body ++ rest in
    let long : leb 4 (length (bytes ++ behind)) ≡ true =
      le→leb 4 _ (omega (arith, length-append bytes behind, length-put_header (frame_header f))) in
    rw
      (
        append_assoc bytes f.body rest,
        opened,
        long,
        get_header-put_header (frame_header f) behind (omega arith) op_fits,
        drop-append bytes behind 4 (length-put_header (frame_header f)),
      )
      (on_header-frame (record net { is_open = true }) f.op f.body rest)

start_read_short : (net : Network) (rest : Bytes) → length rest < 4 → start_read net rest ≡ none
unfolding start_read
start_read_short net rest short = ground arith

-- The rounds have taken these packets and no more.
pub record HasRead (net : Network) (frames : List Frame) (rest : Bytes) (r : Network × Bytes)
    : Type 0 where
  pub queued : r.0.inbound_queue ≡ net.inbound_queue ++ map inbound frames
  pub rest_left : r.1 ≡ rest
  pub still_open : r.0.is_open ≡ net.is_open

rounds_short :
    (n : ℕ) (net : Network) (rest : Bytes)
    → length rest < 4
    → HasRead net [] rest (read_rounds n net rest)
unfolding read_rounds
rounds_short zero net rest short = record {
  queued = sym (append-nil net.inbound_queue);
  rest_left = refl;
  still_open = refl;
}
rounds_short (suc n) net rest short =
    rw (start_read_short net rest short, read_rounds)
      (record { queued = sym (append-nil net.inbound_queue); rest_left = refl; still_open = refl })

rounds-frames :
    (n : ℕ) (net : Network) (frames : List Frame) (rest : Bytes)
    → length frames ≤ n
    → net.is_open ≡ true
    → All IsFrame frames
    → length rest < 4
    → HasRead net frames rest (read_rounds n net (concat_map frame_bytes frames ++ rest))
unfolding read_rounds
rounds-frames n net [] rest enough opened v short = rounds_short n net rest short
rounds-frames zero net (f ∷ fs) rest enough opened v short = absurd (omega arith)
rounds-frames (suc n) net (f ∷ fs) rest enough opened (v, vs) short =
    let behind = concat_map frame_bytes fs ++ rest in
    let next = put_inbound net f (last_payload net f.body) in
    let ih = rounds-frames n next fs rest (omega arith) opened vs short in
    rw
      (
        append_assoc (frame_bytes f) (concat_map frame_bytes fs) rest,
        start_read-frame net f behind opened v,
        read_rounds,
      )
      (record {
        queued = ih.queued ∙ append_assoc net.inbound_queue (inbound f ∷ []) (map inbound fs);
        rest_left = ih.rest_left;
        still_open = ih.still_open;
      })

length-frames : (frames : List Frame) → length frames ≤ length (concat_map frame_bytes frames)
length-frames [] = omega arith
length-frames (f ∷ fs) = omega (
  arith,
  length-frames fs,
  length-append (frame_bytes f) (concat_map frame_bytes fs),
  length-append (put_header (frame_header f)) f.body,
  length-put_header (frame_header f),
)

-- An open network manager that reads packets with sizes of 16 bits, and at most three bytes behind
-- them, puts these packets into the mailbox, each whole and with its own payload, in their order,
-- and leaves the bytes behind them unread.
pub read_stream-frames :
    (net : Network) (frames : List Frame) (rest : Bytes)
    → net.is_open ≡ true
    → All IsFrame frames
    → length rest < 4
    → HasRead net frames rest (read_stream net (concat_map frame_bytes frames ++ rest))
unfolding read_stream
read_stream-frames net frames rest opened v short =
    rounds-frames _ net frames rest
      (omega (arith, length-frames frames, length-append (concat_map frame_bytes frames) rest))
      opened v short
