-- ===== src/Client/Network/Rounds.antt =====
-- client/src/NetworkManager.cpp: the rounds of the read loop come to an end.
use game_x.Base.{
  ℕ, zero, suc, ◌+◌, ◌-◌, ◌≤◌, ◌<◌, ◌≡◌, none, some, arith, length, drop, length-drop, Option-cases,
  inl, inr, ◌⊎◌, Bool-cases, false,
}
use game_x.Base.Bytes.{Bytes}
use game_x.Protocol.Codec.{get_header}
use game_x.Client.Network.{
  Network, read_payload_of, on_header, start_read, read_rounds, read_stream,
}

on_header-length :
    (net : Network) (bs : Bytes) (q : Network × Bytes)
    → on_header net bs ≡ some q
    → length q.1 ≤ length bs
unfolding on_header read_payload_of
on_header-length net bs q h = ground (arith, length-drop (net.incoming_header.size - 4) bs)

-- A round takes at least a header.
start_read-length :
    (net : Network) (bs : Bytes) (q : Network × Bytes)
    → start_read net bs ≡ some q
    → length q.1 + 4 ≤ length bs
unfolding start_read
start_read-length net bs q h = ground (
  arith,
  length-drop 4 bs,
  on_header-length (record net { incoming_header = get_header bs }) (drop 4 bs) q,
)

-- No complete packet is left, by the size that its header announces; or the socket is closed.
abbrev pub IsWaiting : Network × Bytes → Type 0
IsWaiting (net, bs) = (net.is_open ≡ false) ⊎ ((length bs < 4) ⊎ (length bs < (get_header bs).size))

start_read-IsWaiting : (net : Network) (bs : Bytes) → start_read net bs ≡ none → IsWaiting (net, bs)
unfolding start_read on_header read_payload_of
start_read-IsWaiting net bs h = elim (Bool-cases net.is_open) [
  | inr closed ↦ inl closed
  | inl opened ↦ inr (ground (arith, length-drop 4 bs))
]

rounds-IsWaiting :
    (n : ℕ) (net : Network) (bs : Bytes) → length bs ≤ n → IsWaiting (read_rounds n net bs)
unfolding read_rounds
rounds-IsWaiting zero net bs enough = inr (inl (omega arith))
rounds-IsWaiting (suc n) net bs enough = elim (Option-cases (start_read net bs)) [
  | inl e ↦ rw (e, read_rounds) (start_read-IsWaiting net bs e)
  | inr (q, e) ↦
      let ih = rounds-IsWaiting n q.0 q.1 (omega (arith, start_read-length net bs q e)) in
      rw (e, read_rounds) ih
]

-- Whatever bytes have come, the rounds that read_stream makes are enough: at the end the socket is
-- closed, or fewer than four bytes are left, or fewer than the header at their front announces.
pub read_stream-IsWaiting : (net : Network) (bs : Bytes) → IsWaiting (read_stream net bs)
unfolding read_stream
read_stream-IsWaiting net bs = rounds-IsWaiting (length bs) net bs (omega arith)
