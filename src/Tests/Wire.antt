-- ===== src/Tests/Wire.antt =====
-- The theorems on the wire for one small object.
use awarekv.Prelude.{
  none, ◌<◌, ◌^◌, ◌≡◌, ◌≢◌, refl, arith, append-nil, String, false, none, some, [], ◌∷◌, ◌++◌, ok,
  Error, length, take, drop,
}
use awarekv.Dict.{find}
use awarekv.Store.LocalDisk
use awarekv.Store.LocalDisk.{Disk, LocalDiskBackend}
use awarekv.Transport.Struct.{Bytes, pack_i}
use awarekv.Transport.Protocol.{FrameHeader, dict_of, encode_frame, decode_frame}
use awarekv.Transport.Protocol.RoundTrip.{frame_of, decode-encode, encode_frame_fits}
use awarekv.Transport.Socket.{Segments, got, out_of_fuel, recv_frame}
use awarekv.Transport.Socket.Total.{recv_frame_total}
use awarekv.Transport.Socket.Reassembly.{AllNonempty, joined, recv_frame-frame_of}
use awarekv.Transport.DataServer.{Server, process_request, handle_get, handle_client}
use awarekv.Transport.DataServer.Answers.{
  Requests, Arriving, AllAnswered, segments, answer_all, handle_client-answer_all,
  handle_client-Answered,
}
use awarekv.Tests.TestJson.{test_dumps, test_json, test_json-JsonLaws}

abbrev header : FrameHeader
header = record {
  op = "GET_CRITICAL";
  request_id = "r1";
  object_id = "x";
  tier = "critical";
  codec = "";
  payload_nbytes = 2;
  checksum = "";
  deadline_ms = 0;
}

abbrev payload : Bytes
payload = 7 ∷ 8 ∷ []

header_fits : length (test_dumps (dict_of test_json header)) < 2 ^ 32
unfolding test_dumps
header_fits = omega arith

decode-encode_example :
    decode_frame test_json (frame_of test_json header payload ++ 9 ∷ []) ≡ ok (header, payload)
decode-encode_example =
    decode-encode test_json test_json-JsonLaws header payload (9 ∷ [])
      (encode_frame_fits test_json header payload header_fits (omega arith))

-- The frame comes in one segment, with the first byte of the next frame behind it.
recv_frame-frame_of_example :
    (segs : Segments) × (recv_frame ((frame_of test_json header payload ++ 9 ∷ []) ∷ [])
      ≡ (got (frame_of test_json header payload), segs))
    × (joined segs ≡ 9 ∷ [])
    × AllNonempty segs
recv_frame-frame_of_example =
    recv_frame-frame_of test_json header payload (9 ∷ [])
      (frame_of test_json header payload ++ 9 ∷ []) [] header_fits (omega arith) (omega arith, tt)
      (omega arith) (append-nil (frame_of test_json header payload ++ 9 ∷ []))

-- a frame, and the start of another one that never ends
recv_frame_total_example :
    (recv_frame ((frame_of test_json header []) ∷ (b'D' ∷ []) ∷ [])).0 ≢ out_of_fuel
recv_frame_total_example = recv_frame_total ((frame_of test_json header []) ∷ (b'D' ∷ []) ∷ [])

abbrev server : Server
server = record {
  json = test_json;
  sha256 = λ b. "sum";
  utf8 = λ s. b'N' ∷ b'o' ∷ [];
  store = record { root_dir = "/d"; critical_dir = "/d/c"; refinement_dir = "/d/r" };
}

abbrev text : Error → String
text e = "error"

-- the response in one segment
abbrev cut : Bytes → Segments
cut b = b ∷ []

abbrev empty_disk : Disk
empty_disk = record {
  files = [];
  unreadable = λ path. false;
  unwritable = λ path. false;
  full_after = λ path. none;
}

abbrev full_disk : Disk
full_disk = record empty_disk { files = ("/d/c/x", payload) ∷ [] }

there : LocalDisk.get server.store "x" "critical" full_disk ≡ some payload
unfolding LocalDisk.get LocalDisk.get_path LocalDisk.path_join find
there = refl

abbrev stored_disk : Disk
stored_disk = (LocalDisk.put server.store "x" payload "critical" empty_disk).1

-- two requests of one connection
abbrev requests : Requests
requests = (header, []) ∷ (record header { object_id = "y" }, []) ∷ []

-- a frame of no payload, whose first twenty bytes arrive in front of the others
abbrev halves : FrameHeader → Segments
halves h = take 20 (frame_of test_json h []) ∷ drop 20 (frame_of test_json h []) ∷ []

arriving : Arriving test_json requests
unfolding test_dumps
arriving = (
  (halves header, (omega arith, (omega arith, tt), refl)),
  ((halves (record header { object_id = "y" }), (omega arith, (omega arith, tt), refl)), tt),
)

requests-AllAnswered : AllAnswered server text requests full_disk
unfolding process_request handle_get LocalDisk.get LocalDisk.get_path LocalDisk.path_join
    encode_frame pack_i test_dumps find
requests-AllAnswered = (_, refl, (_, refl, tt))

handle_client-answer_all_example :
    handle_client server text 2 (segments test_json requests arriving) full_disk
    ≡ answer_all server text requests full_disk
handle_client-answer_all_example =
    handle_client-answer_all server text test_json-JsonLaws 2 requests arriving full_disk
      (omega arith)

handle_client-Answered_example :
    length (handle_client server text 5 (segments test_json requests arriving) full_disk).0 ≡ 2
handle_client-Answered_example =
    handle_client-Answered server text test_json-JsonLaws 5 requests arriving full_disk
      requests-AllAnswered (omega arith)
