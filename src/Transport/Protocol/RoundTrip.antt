-- ===== src/Transport/Protocol/RoundTrip.antt =====
-- Encoding and decoding of src/dakv/transport/protocol.py.
use awarekv.Prelude.{
  ◌<◌, ◌^◌, ◌≡◌, arith, ◌∷◌, ◌++◌, append_assoc, ok, length, take-append_self, drop-append_self,
  drop-add,
}
use awarekv.Transport.Struct.{Bytes, be32, unpack_i-be32, pack_i, pack_i_fits}
use awarekv.Transport.Protocol.{FrameHeader, Json, JsonLaws, dict_of, encode_frame, decode_frame}

-- the bytes of a frame
abbrev pub frame_of : Json → FrameHeader → Bytes → Bytes
frame_of j h payload =
    b'D'
    ∷ b'A'
    ∷ b'K'
    ∷ b'V'
    ∷ 0
    ∷ 1
    ∷ (be32 (length (j.dumps (dict_of j h)))
        ++ be32 (length payload)
        ++ j.dumps (dict_of j h)
        ++ payload)

-- A frame can be encoded exactly when both lengths fit 32 bits, and its length is then the sum of
-- the lengths and 14.
pub encode_frame_fits :
    (j : Json) (h : FrameHeader) (payload : Bytes)
    → length (j.dumps (dict_of j h)) < 2 ^ 32
    → length payload < 2 ^ 32
    → encode_frame j h payload ≡ ok (frame_of j h payload)
unfolding encode_frame
encode_frame_fits j h payload a b =
    rw (pack_i_fits (length (j.dumps (dict_of j h))) a, pack_i_fits (length payload) b)

encode_frame-eq-ok :
    (j : Json) (h : FrameHeader) (payload : Bytes) {frame : Bytes}
    → encode_frame j h payload ≡ ok frame
    → frame ≡ frame_of j h payload
unfolding encode_frame pack_i
encode_frame-eq-ok j h payload e = ground arith

decode_prefixed :
    (j : Json) (laws : JsonLaws j) (h : FrameHeader) (payload rest : Bytes)
    → decode_frame j (
        b'D'
        ∷ b'A'
        ∷ b'K'
        ∷ b'V'
        ∷ 0
        ∷ 1
        ∷ (be32 (length (j.dumps (dict_of j h)))
            ++ (be32 (length payload) ++ (j.dumps (dict_of j h) ++ (payload ++ rest)))))
      ≡ ok (record h { payload_nbytes = length payload }, payload)
unfolding decode_frame
decode_prefixed j laws h payload rest =
    let json = j.dumps (dict_of j h) in
    rw (unpack_i-be32 (length json), unpack_i-be32 (length payload))
      (rw (take-append_self json (payload ++ rest), laws.loads-dumps (dict_of j h))
        (rw (drop-add, drop-append_self json (payload ++ rest), take-append_self payload rest)))

-- A frame, with whatever follows it, is decoded to its header and its payload; the header then
-- holds the length of the payload.
pub decode_frame_of :
    (j : Json) (laws : JsonLaws j) (h : FrameHeader) (payload rest : Bytes)
    → decode_frame j (frame_of j h payload ++ rest)
      ≡ ok (record h { payload_nbytes = length payload }, payload)
decode_frame_of j laws h payload rest =
    rw (append_assoc (j.dumps (dict_of j h)) payload rest) (decode_prefixed j laws h payload rest)

-- Whatever is encoded is decoded again, also when more bytes follow, provided that the JSON library
-- reads back what it writes; the header comes back with the length of the payload in it.
pub decode-encode :
    (j : Json) (laws : JsonLaws j) (h : FrameHeader) (payload rest : Bytes) {frame : Bytes}
    → encode_frame j h payload ≡ ok frame
    → decode_frame j (frame ++ rest) ≡ ok (record h { payload_nbytes = length payload }, payload)
decode-encode j laws h payload rest e =
    rw (encode_frame-eq-ok j h payload e) (decode_frame_of j laws h payload rest)
