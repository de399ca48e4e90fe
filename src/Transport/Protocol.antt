-- ===== src/Transport/Protocol.antt =====
-- src/dakv/transport/protocol.py: frames of a magic number, a version, two lengths, a JSON header and
-- a payload. The JSON library is a parameter.
pub mod RoundTrip
use awarekv.Prelude.{
  ℕ, ◌+◌, String, Bool, true, false, not, List, [], ◌∷◌, ◌++◌, Result, ok, raise, ◌>>=◌,
  value_error, if◌then◌else◌, nat_eqb, length, take, drop, ◌≡◌, ◌&&◌,
}
use awarekv.Transport.Struct.{Bytes, pack_h, pack_i, unpack_h, unpack_i}

pub record FrameHeader : Type 0 where
  pub op : String
  pub request_id : String
  pub object_id : String
  pub tier : String
  pub codec : String
  pub payload_nbytes : ℕ
  pub checksum : String
  pub deadline_ms : ℕ

-- the dictionary that is written as JSON
pub record HeaderDict : Type 0 where
  pub op : String
  pub request_id : String
  pub object_id : String
  pub tier : String
  pub codec : String
  pub checksum : String
  pub deadline_ms : ℕ

-- `json.dumps(d).encode("utf-8")`, and `json.loads(b.decode("utf-8"))` with the reads of the seven
-- entries: it raises where the text is no JSON or an entry is missing.
pub record Json : Type 0 where
  pub dumps : HeaderDict → Bytes
  pub loads : Bytes → Result HeaderDict

-- What is written as JSON is read back.
pub record JsonLaws (j : Json) : Type 0 where
  pub loads-dumps : (d : HeaderDict) → j.loads (j.dumps d) ≡ ok d

abbrev pub frame_magic : Bytes
frame_magic = b'D' ∷ b'A' ∷ b'K' ∷ b'V' ∷ []

abbrev pub frame_version : ℕ
frame_version = 1

-- data.startswith(FRAME_MAGIC)
unfoldable pub starts_with : Bytes → Bytes → Bool
starts_with [] bs = true
starts_with (m ∷ ms) [] = false
starts_with (m ∷ ms) (b ∷ bs) = let rest = starts_with ms bs in if nat_eqb m b then rest else false

-- data[from:from+n]
abbrev pub slice : ℕ → ℕ → Bytes → Bytes
slice from n b = take n (drop from b)

module _ (j : Json) where
  abbrev pub dict_of : FrameHeader → HeaderDict
  dict_of h = record {
    op = h.op;
    request_id = h.request_id;
    object_id = h.object_id;
    tier = h.tier;
    codec = h.codec;
    checksum = h.checksum;
    deadline_ms = h.deadline_ms;
  }

  unfoldable pub encode_frame : FrameHeader → Bytes → Result Bytes
  unfolding pack_h
  encode_frame h payload = do
    let header_json = j.dumps (dict_of h)
    version ← pack_h frame_version
    header_len ← pack_i (length header_json)
    payload_len ← pack_i (length payload)
    ok (frame_magic ++ version ++ header_len ++ payload_len ++ header_json ++ payload)

  abbrev pub header_of : HeaderDict → ℕ → FrameHeader
  header_of d n = record {
    op = d.op;
    request_id = d.request_id;
    object_id = d.object_id;
    tier = d.tier;
    codec = d.codec;
    payload_nbytes = n;
    checksum = d.checksum;
    deadline_ms = d.deadline_ms;
  }

  -- the part of `decode_frame` behind the version
  unfoldable pub decode_body : Bytes → Result (FrameHeader × Bytes)
  decode_body b = do
    header_len ← unpack_i (slice 6 4 b)
    payload_len ← unpack_i (slice 10 4 b)
    d ← j.loads (slice 14 header_len b)
    ok (header_of d payload_len, slice (14 + header_len) payload_len b)

  unfoldable pub decode_frame : Bytes → Result (FrameHeader × Bytes)
  unfolding starts_with unpack_h decode_body
  decode_frame b = if not (starts_with frame_magic b) then raise value_error else do
    version ← unpack_h (slice 4 2 b)
    if not (nat_eqb version frame_version) then raise value_error else decode_body b
