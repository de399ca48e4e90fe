-- ===== src/Transport/DataClient/Loopback.antt =====
-- src/dakv/transport/data_client.py against src/dakv/transport/data_server.py, over the wire format.
use awarekv.Prelude.{
  ◌≤◌, ◌<◌, ◌^◌, String, some, [], ◌∷◌, string_eq, ◌≡◌, sym, ap, subst, ◌∙◌, arith, length, ok,
  Error, append-nil,
}
use awarekv.Store.LocalDisk.{Disk}
use awarekv.Transport.Struct.{Bytes}
use awarekv.Transport.Protocol.{FrameHeader, Json, JsonLaws, dict_of, encode_frame, decode_frame}
use awarekv.Transport.Protocol.RoundTrip.{frame_of, encode_frame_fits, decode_frame_of}
use awarekv.Transport.Socket.{Segments, Received, got, recv_frame}
use awarekv.Transport.Socket.Reassembly.{AllNonempty, joined, recv_frame-frame_of}
use awarekv.Transport.DataServer.{Server, process_request, handle_client}
use awarekv.Transport.DataClient.{Network, exchange, received}

-- A header whose frame has lengths in range.
abbrev pub Fits : Json → FrameHeader → Bytes → Type 0
Fits j h payload = (length (j.dumps (dict_of j h)) < 2 ^ 32) × (length payload < 2 ^ 32)

-- The first segment holds at least the fourteen bytes that the receiver reads first.
abbrev pub FirstLong : Segments → Type 0
FirstLong [] = ⊥
FirstLong (seg ∷ segs) = 14 ≤ length seg

-- How the network cuts a frame up: nothing is lost, and the first fourteen bytes stay together.
pub record Cuts (cut : Bytes → Segments) : Type 0 where
  pub whole : (b : Bytes) → 14 ≤ length b → joined (cut b) ≡ b
  pub front : (b : Bytes) → 14 ≤ length b → FirstLong (cut b)
  pub nonempty : (b : Bytes) → 14 ≤ length b → AllNonempty (cut b)

decode_frame_all :
    (j : Json) (laws : JsonLaws j) (h : FrameHeader) (payload : Bytes)
    → decode_frame j (frame_of j h payload)
      ≡ ok (record h { payload_nbytes = length payload }, payload)
decode_frame_all j laws h payload =
    subst (λ b. decode_frame j b ≡ ok (record h { payload_nbytes = length payload }, payload))
      (append-nil (frame_of j h payload)) (decode_frame_of j laws h payload [])

-- The server at the other end of a connection that carries one request, and a network that cuts
-- the request and the response up.
unfoldable pub loopback : Server → (Error → String) → (Bytes → Segments) → Network Disk
loopback sv text cut frame disk =
    let (sent, disk') = handle_client sv text 1 (cut frame) disk in
    elim sent [ [] ↦ (some [], disk') | b ∷ bs ↦ (some (cut b), disk') ]

frame_of-long : (j : Json) (h : FrameHeader) (payload : Bytes) → 14 ≤ length (frame_of j h payload)
frame_of-long j h payload = omega arith

received_lem :
    (j : Json) (h : FrameHeader) (payload : Bytes) (segs : Segments)
    → Fits j h payload
    → joined segs ≡ frame_of j h payload
    → FirstLong segs
    → AllNonempty segs
    → (recv_frame segs).0 ≡ got (frame_of j h payload)
received_lem j h payload [] fits e front w = absurd front
received_lem j h payload (seg ∷ segs) fits e front w =
    let (segs', at, _, _) =
      recv_frame-frame_of j h payload [] seg segs fits.0 fits.1 w front
        (e ∙ sym (append-nil (frame_of j h payload))) in
    ap (λ (r : Received × Segments). r.0) at

module _ (sv : Server) (text : Error → String) (cut : Bytes → Segments) (laws : JsonLaws sv.json)
    (cuts : Cuts cut) where
  serve_one :
      (h rh : FrameHeader) (payload rp : Bytes) (disk disk' : Disk)
      → Fits sv.json h payload
      → Fits sv.json rh rp
      → process_request sv text (record h { payload_nbytes = length payload }) payload disk
        ≡ (encode_frame sv.json rh rp, disk')
      → loopback sv text cut (frame_of sv.json h payload) disk
        ≡ (some (cut (frame_of sv.json rh rp)), disk')
  unfolding loopback handle_client
  serve_one h rh payload rp disk disk' a b e =
      let frame = frame_of sv.json h payload in
      ground (
        arith,
        received_lem sv.json h payload (cut frame) a
            (cuts.whole frame (frame_of-long sv.json h payload))
            (cuts.front frame (frame_of-long sv.json h payload))
            (cuts.nonempty frame (frame_of-long sv.json h payload)),
        decode_frame_all sv.json laws h payload,
        encode_frame_fits sv.json rh rp b.0 b.1,
        e,
      )

  -- One exchange is one call of the request handler, when its answer can be framed.
  pub exchange-process :
      (h rh : FrameHeader) (payload rp : Bytes) (disk disk' : Disk)
      → Fits sv.json h payload
      → Fits sv.json rh rp
      → process_request sv text (record h { payload_nbytes = length payload }) payload disk
        ≡ (encode_frame sv.json rh rp, disk')
      → exchange sv.json sv.sha256 (loopback sv text cut) h payload disk
        ≡ (some (record rh { payload_nbytes = length rp }, rp), disk')
  unfolding exchange received
  exchange-process h rh payload rp disk disk' a b e = ground (
    arith,
    encode_frame_fits sv.json h payload a.0 a.1,
    serve_one h rh payload rp disk disk' a b e,
    received_lem sv.json rh rp (cut (frame_of sv.json rh rp)) b
        (cuts.whole (frame_of sv.json rh rp) (frame_of-long sv.json rh rp))
        (cuts.front (frame_of sv.json rh rp) (frame_of-long sv.json rh rp))
        (cuts.nonempty (frame_of sv.json rh rp) (frame_of-long sv.json rh rp)),
    decode_frame_all sv.json laws rh rp,
  )
