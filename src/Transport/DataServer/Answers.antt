-- ===== src/Transport/DataServer/Answers.antt =====
-- The loop of `_handle_client` of src/dakv/transport/data_server.py over the requests of one connection.
use awarekv.Prelude.{
  ℕ, zero, suc, ◌≤◌, String, ◌≡◌, refl, ap, ◌∙◌, subst, arith, Option, some, none, List, [], ◌∷◌,
  ◌++◌, length, ok, raise, Error, append-nil, Result, Result-cases, inl, inr,
}
use awarekv.Store.LocalDisk.{Disk}
use awarekv.Transport.Struct.{Bytes}
use awarekv.Transport.Protocol.{FrameHeader, Json, JsonLaws, decode_frame}
use awarekv.Transport.Protocol.RoundTrip.{frame_of, decode_frame_of}
use awarekv.Transport.Socket.{Segments, closed, recv, recv_frame}
use awarekv.Transport.Socket.Whole.{IsCut, recv_frame-pieces}
use awarekv.Transport.DataServer.{Server, process_request, handle_frame, handle_client}

-- The requests of a client: a header and a payload each.
abbrev pub Requests : Type 0
Requests = List (FrameHeader × Bytes)

-- The segments in which some requests arrive: those of the frame of each, one frame after the other,
-- as a client sends no request before it has the answer to the one before.
abbrev pub Arriving : Json → Requests → Type 0
Arriving j [] = Unit
Arriving j ((h, payload) ∷ rs) =
    ((pieces : Segments) × IsCut (frame_of j h payload) pieces) × Arriving j rs

abbrev pub segments : (j : Json) (rs : Requests) → Arriving j rs → Segments
segments j [] a = []
segments j ((h, payload) ∷ rs) a = a.0.0 ++ segments j rs a.1

-- the bytes of an answer that can be written
abbrev written : Result Bytes → Option Bytes
written (ok b) = some b
written (raise e) = none

recv_nothing : recv_frame [] ≡ (closed, [])
unfolding recv_frame recv
recv_nothing = refl

module _ (sv : Server) (text : Error → String) where
  -- The requests one after the other, up to the first whose answer cannot be written.
  unfoldable pub answer_all : Requests → Disk → Segments × Disk
  answer_all [] disk = ([], disk)
  answer_all ((h, payload) ∷ rs) disk =
      let (response, disk') =
        process_request sv text (record h { payload_nbytes = length payload }) payload disk in
      elim response [
        | raise e ↦ ([], disk')
        | ok b ↦ let (more, disk'') = answer_all rs disk' in (b ∷ more, disk'')
      ]

  -- Every request has an answer that can be written.
  abbrev pub AllAnswered : Requests → Disk → Type 0
  AllAnswered [] disk = Unit
  AllAnswered ((h, payload) ∷ rs) disk =
      let served =
        process_request sv text (record h { payload_nbytes = length payload }) payload disk in
      (b : Bytes) × (served.0 ≡ ok b) × AllAnswered rs served.1

  module _ (laws : JsonLaws sv.json) where
    decoded :
        (h : FrameHeader) (payload : Bytes)
        → decode_frame sv.json (frame_of sv.json h payload)
          ≡ ok (record h { payload_nbytes = length payload }, payload)
    decoded h payload =
        subst
          (λ b. decode_frame sv.json b ≡ ok (record h { payload_nbytes = length payload }, payload))
          (append-nil (frame_of sv.json h payload)) (decode_frame_of sv.json laws h payload [])

    handle_frame-frame_of :
        (h : FrameHeader) (payload : Bytes) (disk : Disk)
        → let served =
            process_request sv text (record h { payload_nbytes = length payload }) payload disk in
          handle_frame sv text (frame_of sv.json h payload) disk ≡ (written served.0, served.1)
    unfolding handle_frame
    handle_frame-frame_of h payload disk =
        let served =
          process_request sv text (record h { payload_nbytes = length payload }) payload disk in
        elim (Result-cases served.0) [
          | inr (x, e) ↦ ground (arith, decoded h payload, e)
          | inl (b, e) ↦ ground (arith, decoded h payload, e)
        ]

    -- The loop does with the frames of some requests, however the network cuts each of them behind
    -- its first fourteen bytes, what a loop over the requests does, where its bound allows a round
    -- for each, no frame begins in a segment of the one before, and the JSON library reads back what
    -- it writes.
    pub handle_client-answer_all :
        (rounds : ℕ) (rs : Requests) (arriving : Arriving sv.json rs) (disk : Disk)
        → length rs ≤ rounds
        → handle_client sv text rounds (segments sv.json rs arriving) disk ≡ answer_all rs disk
    unfolding handle_client answer_all
    handle_client-answer_all zero [] a disk h = refl
    handle_client-answer_all (suc rounds) [] a disk h = rw (handle_client, recv_nothing) refl
    handle_client-answer_all zero ((r, payload) ∷ rs) a disk h = absurd (omega arith)
    handle_client-answer_all (suc rounds) ((r, payload) ∷ rs) a disk h =
        let served =
          process_request sv text (record r { payload_nbytes = length payload }) payload disk in
        let received = recv_frame-pieces sv.json r payload a.0.0 (segments sv.json rs a.1) a.0.1 in
        let handled = handle_frame-frame_of r payload disk in
        elim (Result-cases served.0) [
          | inr (x, e) ↦ ground (arith, received, handled, e)
          | inl (b, e) ↦ ground (
            arith,
            received,
            handled,
            e,
            handle_client-answer_all rounds rs a.1 served.1 (omega arith),
          )
        ]

    length-answer_all :
        (rs : Requests) (disk : Disk)
        → AllAnswered rs disk
        → length (answer_all rs disk).0 ≡ length rs
    unfolding answer_all
    length-answer_all [] disk a = refl
    length-answer_all ((h, payload) ∷ rs) disk (b, e, a) =
        rw (answer_all, e) (ap suc (length-answer_all rs _ a))

    -- A client whose requests all have answers that can be written gets as many answers as it sends
    -- requests: no request is left waiting, however the network cuts each frame behind its first
    -- fourteen bytes. No frame begins in a segment of the one before, the JSON library reads back
    -- what it writes, and the bound of the loop allows a round for each request.
    pub handle_client-Answered :
        (rounds : ℕ) (rs : Requests) (arriving : Arriving sv.json rs) (disk : Disk)
        → AllAnswered rs disk
        → length rs ≤ rounds
        → length (handle_client sv text rounds (segments sv.json rs arriving) disk).0 ≡ length rs
    handle_client-Answered rounds rs arriving disk a h =
        ap (λ r. length r.0) (handle_client-answer_all rounds rs arriving disk h)
        ∙ length-answer_all rs disk a
