-- ===== src/Transport/DataServer.antt =====
-- `DataServer` of src/dakv/transport/data_server.py: the requests of one connection. Each client has
-- a thread; the handlers touch nothing but the object store.
pub mod Answers
use awarekv.Prelude.{
  ℕ, zero, suc, String, not, ◌&&◌, Option, none, some, [], ◌∷◌, if◌then◌else◌, ◌==◌, string_eq,
  length, Result, ok, raise, Error,
}
use Prim.Native.String
use awarekv.Common.Hashing.{verify_checksum}
use awarekv.Store.LocalDisk
use awarekv.Store.LocalDisk.{LocalDiskBackend, Disk}
use awarekv.Transport.Struct.{Bytes}
use awarekv.Transport.Protocol.{FrameHeader, Json, encode_frame, decode_frame}
use awarekv.Transport.Socket.{Segments, got, closed, malformed, out_of_fuel, recv_frame}

-- The digest, and the encoding of error texts, are parameters.
pub record Server : Type 0 where
  pub json : Json
  pub sha256 : Bytes → String
  pub utf8 : String → Bytes
  pub store : LocalDiskBackend

module _ (sv : Server) where
  open sv use {json, sha256, utf8, store}

  abbrev pub response_header : FrameHeader → String → String → ℕ → String → FrameHeader
  response_header h tier codec n checksum = record {
    op = "RESPONSE";
    request_id = h.request_id;
    object_id = h.object_id;
    tier = tier;
    codec = codec;
    payload_nbytes = n;
    checksum = checksum;
    deadline_ms = 0;
  }

  -- `_error_response`. The source gives the length of the text in characters to `payload_nbytes`,
  -- which is not written into the frame.
  unfoldable pub error_response : FrameHeader → String → Result Bytes
  error_response h message =
      encode_frame json
        (record (response_header h "" "" (length (utf8 message)) "") { op = "ERROR" })
        (utf8 message)

  -- `_handle_get`
  unfoldable pub handle_get : FrameHeader → String → Disk → Result Bytes
  unfolding error_response
  handle_get h tier disk = elim (LocalDisk.get store h.object_id tier disk) [
    | none ↦ error_response h "Object not found"
    | some content ↦
        encode_frame json (response_header h tier h.codec (length content) (sha256 content)) content
  ]

  -- `_handle_put`
  unfoldable pub handle_put : FrameHeader → Bytes → String → Disk → Result Bytes × Disk
  unfolding error_response
  handle_put h payload tier disk =
      if not (h.checksum == "") && not (verify_checksum sha256 payload h.checksum)
      then (error_response h "Checksum mismatch", disk)
      else (let (success, disk') = LocalDisk.put store h.object_id payload tier disk in
          if not success
          then (error_response h "Failed to store object", disk')
          else (encode_frame json (response_header h tier h.codec 0 "") (b'O' ∷ b'K' ∷ []), disk'))

  -- `_handle_delete`; the results of the two deletions are not looked at
  unfoldable pub handle_delete : FrameHeader → Disk → Result Bytes × Disk
  handle_delete h disk =
      let disk1 = (LocalDisk.delete store h.object_id "critical" disk).1 in
      let disk2 = (LocalDisk.delete store h.object_id "refinement" disk1).1 in
      (encode_frame json (response_header h "" "" 0 "") (b'O' ∷ b'K' ∷ []), disk2)

  -- the handler of the exceptions of `_process_request`; `text` is `str(e)`
  unfoldable pub recover :
      FrameHeader → (Error → String) → Result Bytes × Disk → Result Bytes × Disk
  unfolding error_response
  recover h text (ok b, disk) = (ok b, disk)
  recover h text (raise e, disk) = (error_response h (text e), disk)

  -- `_process_request`
  unfoldable pub process_request :
      (Error → String) → FrameHeader → Bytes → Disk → Result Bytes × Disk
  unfolding recover
  process_request text h payload disk = recover h text (
      if h.op == "GET_CRITICAL"
      then (handle_get h "critical" disk, disk)
      else if h.op == "GET_REFINEMENT"
      then (handle_get h "refinement" disk, disk)
      else if h.op == "PUT_CRITICAL"
      then handle_put h payload "critical" disk
      else if h.op == "PUT_REFINEMENT"
      then handle_put h payload "refinement" disk
      else if h.op == "DELETE"
      then handle_delete h disk
      else (error_response h (String.◌++◌ "Unknown op: " h.op), disk))

  -- One round of `_handle_client`: the bytes that are sent, if the connection stays open.
  unfoldable pub handle_frame : (Error → String) → Bytes → Disk → Option Bytes × Disk
  handle_frame text frame disk = elim (decode_frame json frame) [
    | raise e ↦ (none, disk)
    | ok (h, payload) ↦
        let (response, disk') = process_request text h payload disk in
        elim response [ raise e ↦ (none, disk') | ok b ↦ (some b, disk') ]
  ]

  -- `_handle_client`: what is sent back, round by round, until the connection is closed. The
  -- argument bounds the rounds.
  unfoldable pub handle_client : (Error → String) → ℕ → Segments → Disk → Segments × Disk
  unfolding handle_frame
  handle_client text zero segs disk = ([], disk)
  handle_client text (suc rounds) segs disk =
      let (received, segs') = recv_frame segs in
      elim received [
        | closed ↦ ([], disk)
        | malformed ↦ ([], disk)
        | out_of_fuel ↦ ([], disk)
        | got frame ↦
            let (response, disk') = handle_frame text frame disk in
            elim response [
              | none ↦ ([], disk')
              | some b ↦
                  let (more, disk'') = handle_client text rounds segs' disk' in (b ∷ more, disk'')
            ]
      ]
