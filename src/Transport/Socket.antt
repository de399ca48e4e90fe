-- ===== src/Transport/Socket.antt =====
-- `_recv_frame` of src/dakv/transport/data_server.py and src/dakv/transport/data_client.py, over a
-- socket whose incoming bytes arrive in segments of any size: the network chooses them.
pub mod Reassembly
pub mod Total
pub mod Whole
use awarekv.Prelude.{
  ℕ, zero, suc, ◌+◌, ◌-◌, min, Bool, true, false, Option, none, some, List, [], ◌∷◌, ◌++◌,
  if◌then◌else◌, ltb, leb, length, take, drop, Result, ok, raise,
}
use awarekv.Transport.Struct.{Bytes, unpack_i}
use awarekv.Transport.Protocol.{slice}

-- What is still to arrive, one list for each segment; behind the last the peer has closed.
abbrev pub Segments : Type 0
Segments = List Bytes

-- `sock.recv(n)`: at most `n` bytes of the first segment, and none once the peer has closed
unfoldable pub recv : ℕ → Segments → Bytes × Segments
recv n [] = ([], [])
recv n (seg ∷ segs) = (take n seg, if leb (length seg) n then segs else drop n seg ∷ segs)

-- `out_of_fuel` is no result of the source.
pub data Received : Type 0 where
  got : Bytes → Received
  closed malformed out_of_fuel : Received

-- the `while` loop
unfoldable pub recv_rest : ℕ → ℕ → Bytes → Segments → Received × Segments
recv_rest zero total frame segs = (out_of_fuel, segs)
recv_rest (suc fuel) total frame segs =
    let (chunk, segs') = recv (min 4096 (total - length frame)) segs in
    let more = recv_rest fuel total (frame ++ chunk) segs' in
    if ltb (length frame) total
    then elim chunk [ [] ↦ (closed, segs') | b ∷ bs ↦ more ]
    else (got frame, segs)

-- the part behind the first read
unfoldable pub recv_body : Bytes → Segments → Received × Segments
unfolding unpack_i
recv_body header segs = elim (unpack_i (slice 6 4 header)) [
  | raise e ↦ (malformed, segs)
  | ok header_len ↦ elim (unpack_i (slice 10 4 header)) [
    | raise e ↦ (malformed, segs)
    | ok payload_len ↦
        let total = 14 + header_len + payload_len in recv_rest (suc total) total header segs
  ]
]

unfoldable pub recv_frame : Segments → Received × Segments
unfolding recv_body
recv_frame segs =
    let (header, segs') = recv 14 segs in
    if ltb (length header) 14 then (closed, segs') else recv_body header segs'
