-- ===== src/Transport/DataClient.antt =====
-- `DataClient` of src/dakv/transport/data_client.py. The network is a parameter: sending a frame on a
-- new connection either fails or gives the segments that come back, and may change the other end.
pub mod Loopback
pub mod RoundTrip
use awarekv.Prelude.{
  ℕ, String, Bool, true, false, not, ◌&&◌, Option, none, some, List, [], ◌∷◌, if◌then◌else◌, ◌==◌,
  string_eq, length, Result, ok, raise,
}
use awarekv.Common.Hashing.{verify_checksum}
use awarekv.Transport.Struct.{Bytes}
use awarekv.Transport.Protocol.{FrameHeader, Json, encode_frame, decode_frame}
use awarekv.Transport.Socket.{Segments, got, closed, malformed, out_of_fuel, recv_frame}

-- connect, sendall and what then arrives; `none` is an exception, a timeout among them
abbrev pub Network : Type 0 → Type 0
Network S = Bytes → S → Option Segments × S

-- `_recv_frame`, which reads as the server does and returns `None` for an exception, too. A response
-- has its first fourteen bytes, so the test of the caller is one for `None`.
unfoldable pub received : Segments → Option Bytes
received segs = elim (recv_frame segs).0 [
  | closed ↦ none
  | malformed ↦ none
  | out_of_fuel ↦ none
  | got response ↦ some response
]

module _ (json : Json) (sha256 : Bytes → String) {S : Type 0} (network : Network S) where
  abbrev pub request_header : String → String → String → String → String → ℕ → String → FrameHeader
  request_header op rid object_id tier codec n checksum = record {
    op = op;
    request_id = rid;
    object_id = object_id;
    tier = tier;
    codec = codec;
    payload_nbytes = n;
    checksum = checksum;
    deadline_ms = 0;
  }

  -- The response of the server, or `none` for each of the ways in which there is none: every
  -- exception ends in the handler that returns the failure.
  unfoldable pub exchange : FrameHeader → Bytes → S → Option (FrameHeader × Bytes) × S
  unfolding received
  exchange h payload s = elim (encode_frame json h payload) [
    | raise e ↦ (none, s)
    | ok frame ↦
        let (arriving, s') = network frame s in
        elim arriving [
          | none ↦ (none, s')
          | some segs ↦ elim (received segs) [
            | none ↦ (none, s')
            | some response ↦ elim (decode_frame json response) [
              | raise e ↦ (none, s')
              | ok (rh, rp) ↦ (some (rh, rp), s')
            ]
          ]
        ]
  ]

  -- what `_get` makes of the response
  unfoldable pub accept : Option (FrameHeader × Bytes) → Option Bytes
  accept none = none
  accept (some (h, payload)) =
      if h.op == "ERROR"
      then none
      else if not (h.checksum == "") && not (verify_checksum sha256 payload h.checksum)
      then none
      else some payload

  -- `_get`
  unfoldable pub get_object : String → String → String → S → Option Bytes × S
  unfolding exchange accept
  get_object object_id tier rid s =
      let op = if tier == "critical" then "GET_CRITICAL" else "GET_REFINEMENT" in
      let (response, s') = exchange (request_header op rid object_id tier "" 0 "") [] s in
      (accept response, s')

  unfoldable pub acknowledged : Option (FrameHeader × Bytes) → Bool
  acknowledged none = false
  acknowledged (some (h, payload)) = if h.op == "ERROR" then false else true

  -- `_put`
  unfoldable pub put_object : String → Bytes → String → String → String → S → Bool × S
  unfolding exchange acknowledged
  put_object object_id content tier codec rid s =
      let op = if tier == "critical" then "PUT_CRITICAL" else "PUT_REFINEMENT" in
      let (response, s') =
        exchange (request_header op rid object_id tier codec (length content) (sha256 content))
          content s in
      (acknowledged response, s')

  unfoldable pub get_critical : String → String → S → Option Bytes × S
  unfolding get_object
  get_critical object_id rid = get_object object_id "critical" rid

  unfoldable pub get_refinement : String → String → S → Option Bytes × S
  unfolding get_object
  get_refinement object_id rid = get_object object_id "refinement" rid

  unfoldable pub put_critical : String → Bytes → String → String → S → Bool × S
  unfolding put_object
  put_critical object_id content codec rid = put_object object_id content "critical" codec rid

  unfoldable pub put_refinement : String → Bytes → String → String → S → Bool × S
  unfolding put_object
  put_refinement object_id content codec rid = put_object object_id content "refinement" codec rid
