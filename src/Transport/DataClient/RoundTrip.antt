-- ===== src/Transport/DataClient/RoundTrip.antt =====
-- The client of src/dakv/transport/data_client.py against the server's object store.
use awarekv.Prelude.{String, some, [], string_eq, ◌≡◌, arith, length, Error, ==_refl}
use awarekv.Common.Hashing.{verify_checksum}
use awarekv.Store.LocalDisk
use awarekv.Store.LocalDisk.{Disk, LocalDiskBackend}
use awarekv.Transport.Struct.{Bytes}
use awarekv.Transport.Protocol.{FrameHeader, JsonLaws, encode_frame}
use awarekv.Transport.Protocol.RoundTrip.{encode_frame_fits}
use awarekv.Transport.Socket.{Segments}
use awarekv.Transport.DataServer.{Server, response_header, handle_get, process_request}
use awarekv.Transport.DataClient.{request_header, get_object}
use awarekv.Transport.DataClient.Loopback.{Fits, Cuts, loopback, exchange-process}

-- The two tiers of objects.
pub data ObjectTier : Type 0 where
  critical refinement : ObjectTier

abbrev pub tier_name : ObjectTier → String
tier_name critical = "critical"
tier_name refinement = "refinement"

abbrev get_op : ObjectTier → String
get_op critical = "GET_CRITICAL"
get_op refinement = "GET_REFINEMENT"

abbrev put_op : ObjectTier → String
put_op critical = "PUT_CRITICAL"
put_op refinement = "PUT_REFINEMENT"

module _ (sv : Server) (text : Error → String) (cut : Bytes → Segments) (laws : JsonLaws sv.json)
    (cuts : Cuts cut) (object_id rid : String) where
  abbrev get_request : ObjectTier → FrameHeader
  get_request tier =
      request_header sv.json sv.sha256 (loopback sv text cut) (get_op tier) rid object_id
        (tier_name tier) "" 0 ""

  abbrev error_header : ObjectTier → FrameHeader
  error_header tier =
      record (response_header sv (get_request tier) "" "" (length (sv.utf8 "Object not found"))
        "") { op = "ERROR" }

  abbrev get_response : ObjectTier → Bytes → FrameHeader
  get_response tier content =
      response_header sv (get_request tier) (tier_name tier) "" (length content) (sv.sha256 content)

  process-get :
      (tier : ObjectTier) (content : Bytes) (disk : Disk)
      → LocalDisk.get sv.store object_id (tier_name tier) disk ≡ some content
      → Fits sv.json (get_response tier content) content
      → process_request sv text (get_request tier) [] disk
        ≡ (encode_frame sv.json (get_response tier content) content, disk)
  unfolding process_request handle_get
  process-get critical content disk e fits =
      ground
        (arith, encode_frame_fits sv.json (get_response critical content) content fits.0 fits.1)
  process-get refinement content disk e fits =
      ground
        (arith, encode_frame_fits sv.json (get_response refinement content) content fits.0 fits.1)

  -- A stored object that can be framed is what the client gets, through either tier: its checksum is
  -- verified, and nothing changes on the disk. The JSON library reads back what it writes, and the
  -- network loses nothing and keeps the first fourteen bytes of each of the two frames together.
  pub get_object-found :
      (tier : ObjectTier) (content : Bytes) (disk : Disk)
      → LocalDisk.get sv.store object_id (tier_name tier) disk ≡ some content
      → Fits sv.json (get_request tier) []
      → Fits sv.json (get_response tier content) content
      → get_object sv.json sv.sha256 (loopback sv text cut) object_id (tier_name tier) rid disk
        ≡ (some content, disk)
  unfolding get_object verify_checksum
  get_object-found critical content disk e a b = ground (
    arith,
    exchange-process sv text cut laws cuts (get_request critical) (get_response critical content) []
        content disk disk a b (process-get critical content disk e b),
    ==_refl (sv.sha256 content),
  )
  get_object-found refinement content disk e a b = ground (
    arith,
    exchange-process sv text cut laws cuts (get_request refinement)
        (get_response refinement content) [] content disk disk a b
        (process-get refinement content disk e b),
    ==_refl (sv.sha256 content),
  )

  module _ (content : Bytes) (codec : String) where
    abbrev put_request : ObjectTier → FrameHeader
    put_request tier =
        request_header sv.json sv.sha256 (loopback sv text cut) (put_op tier) rid object_id
          (tier_name tier) codec (length content) (sv.sha256 content)

    abbrev put_response : ObjectTier → FrameHeader
    put_response tier = response_header sv (put_request tier) (tier_name tier) codec 0 ""

    abbrev stored : ObjectTier → Disk → Disk
    stored tier disk = (LocalDisk.put sv.store object_id content (tier_name tier) disk).1
