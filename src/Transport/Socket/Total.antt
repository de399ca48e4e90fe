-- ===== src/Transport/Socket/Total.antt =====
-- The end of `_recv_frame` of src/dakv/transport/data_server.py, whatever arrives.
use awarekv.Prelude.{
  ℕ, zero, suc, ◌+◌, ◌-◌, ◌≤◌, ◌<◌, min, ◌≡◌, ◌≢◌, arith, [], ◌∷◌, ◌++◌, length, length-append,
  length-take-le, Result-cases, inl, inr,
}
use awarekv.Transport.Struct.{Bytes, unpack_i}
use awarekv.Transport.Protocol.{slice}
use awarekv.Transport.Socket.{Segments, out_of_fuel, recv, recv_rest, recv_body, recv_frame}

recv-length : (n : ℕ) (segs : Segments) → length (recv n segs).0 ≤ n
unfolding recv
recv-length n [] = omega arith
recv-length n (seg ∷ segs) = length-take-le n seg

recv_rest_total :
    (fuel total : ℕ) (frame : Bytes) (segs : Segments)
    → length frame ≤ total
    → total < fuel + length frame
    → (recv_rest fuel total frame segs).0 ≢ out_of_fuel
unfolding recv_rest
recv_rest_total zero total frame segs fits enough = absurd (omega arith)
recv_rest_total (suc fuel) total frame segs fits enough =
    let size = min 4096 (total - length frame) in
    let chunk = (recv size segs).0 in
    ground (
      arith,
      recv-length size segs,
      length-append frame chunk,
      recv_rest_total fuel total (frame ++ chunk) (recv size segs).1,
    )

recv_body_total :
    (header : Bytes) (segs : Segments)
    → length header ≡ 14
    → (recv_body header segs).0 ≢ out_of_fuel
unfolding recv_body
recv_body_total header segs h = elim (Result-cases (unpack_i (slice 6 4 header))) [
  | inr (x, e) ↦ ground arith
  | inl (m, e) ↦ elim (Result-cases (unpack_i (slice 10 4 header))) [
    | inr (x, e2) ↦ ground arith
    | inl (n, e2) ↦
        let total = 14 + m + n in
        ground (arith, recv_rest_total (suc total) total header segs (omega arith) (omega arith))
  ]
]

-- Reception always ends with a frame, an error or a closed connection, whatever arrives: the fuel is
-- enough for every stream of segments.
pub recv_frame_total : (segs : Segments) → (recv_frame segs).0 ≢ out_of_fuel
unfolding recv_frame
recv_frame_total segs =
    ground (arith, recv-length 14 segs, recv_body_total (recv 14 segs).0 (recv 14 segs).1)
