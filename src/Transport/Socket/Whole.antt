-- ===== src/Transport/Socket/Whole.antt =====
-- `_recv_frame` of src/dakv/transport/data_server.py on the segments of one frame.
use awarekv.Prelude.{
  ℕ, zero, suc, ◌+◌, ◌-◌, ◌<◌, min, ◌≡◌, refl, ap, ◌∙◌, arith, [], ◌∷◌, ◌++◌, append_assoc, length,
  take, drop, length-append, take-append-drop, leb, le→ltb, Bool-cases, inl, inr, length-drop,
  leb→le, leb→lt, take_all, drop_all, length-take_of_le, sym, append-nil, if◌then◌else◌, ◌≤◌,
}
use awarekv.Transport.Struct.{Bytes}
use awarekv.Transport.Protocol.{FrameHeader, Json, dict_of}
use awarekv.Transport.Protocol.RoundTrip.{frame_of}
use awarekv.Transport.Socket.{Segments, got, recv, recv_rest, recv_frame}
use awarekv.Transport.Socket.Reassembly.{AllNonempty, joined, frame_head, recv_frame_step}

recv_rest_step :
    (fuel total : ℕ) (frame chunk : Bytes) (segs segs' : Segments)
    → recv (min 4096 (total - length frame)) segs ≡ (chunk, segs')
    → 0 < length chunk
    → length frame < total
    → recv_rest (suc fuel) total frame segs ≡ recv_rest fuel total (frame ++ chunk) segs'
unfolding recv_rest
recv_rest_step fuel total frame [] segs segs' e p h = absurd (omega arith)
recv_rest_step fuel total frame (b ∷ bs) segs segs' e p h = ground (arith, e)

recv_rest_done :
    (fuel total : ℕ) (frame : Bytes) (segs : Segments)
    → length frame ≡ total
    → recv_rest (suc fuel) total frame segs ≡ (got frame, segs)
unfolding recv_rest
recv_rest_done fuel total frame segs h = rw (le→ltb (length frame) total (omega arith)) refl

recv-all :
    (n : ℕ) (seg : Bytes) (segs : Segments) → length seg ≤ n → recv n (seg ∷ segs) ≡ (seg, segs)
unfolding recv
recv-all n seg segs h = ground (arith, take_all n seg h)

recv-part :
    (n : ℕ) (seg : Bytes) (segs : Segments)
    → n < length seg
    → recv n (seg ∷ segs) ≡ (take n seg, drop n seg ∷ segs)
unfolding recv
recv-part n seg segs h = ground arith

-- The loop reads the segments that hold what it needs, and leaves the others.
recv_rest-pieces :
    (fuel total : ℕ) (frame : Bytes) (pieces segs : Segments)
    → AllNonempty pieces
    → length frame + length (joined pieces) ≡ total
    → length (joined pieces) < fuel
    → recv_rest fuel total frame (pieces ++ segs) ≡ (got (frame ++ joined pieces), segs)
recv_rest-pieces zero total frame pieces segs w e h = absurd (omega arith)
recv_rest-pieces (suc fuel) total frame [] segs w e h =
    recv_rest_done fuel total frame segs (omega arith)
    ∙ ap (λ (b : Bytes). (got b, segs)) (sym (append-nil frame))
recv_rest-pieces (suc fuel) total frame (p ∷ ps) segs w e h =
    let size = min 4096 (total - length frame) in
    let long = length-append p (joined ps) in
    elim (Bool-cases (leb (length p) size)) [
      | inl b ↦
          recv_rest_step fuel total frame p ((p ∷ ps) ++ segs) (ps ++ segs)
            (recv-all size p (ps ++ segs) (leb→le (length p) size b)) w.0 (omega (arith, w.0))
          ∙ recv_rest-pieces fuel total (frame ++ p) ps segs w.1
              (omega (arith, length-append frame p)) (omega (arith, w.0))
          ∙ ap (λ (b : Bytes). (got b, segs)) (append_assoc frame p (joined ps))
      | inr b ↦
          let part = leb→lt (length p) size b in
          let front = length-take_of_le size p (omega arith) in
          let back = length-drop size p in
          let rest = length-append (drop size p) (joined ps) in
          recv_rest_step fuel total frame (take size p) ((p ∷ ps) ++ segs)
            ((drop size p ∷ ps) ++ segs) (recv-part size p (ps ++ segs) part) (omega (arith, w.0))
            (omega (arith, w.0))
          ∙ recv_rest-pieces fuel total (frame ++ take size p) (drop size p ∷ ps) segs
              (omega arith, w.1) (omega (arith, length-append frame (take size p)))
              (omega (arith, w.0))
          ∙ ap (λ (b : Bytes). (got b, segs))
              (append_assoc frame (take size p) (drop size p ++ joined ps)
                ∙ ap (λ (b : Bytes). frame ++ b)
                    (sym (append_assoc (take size p) (drop size p) (joined ps))
                      ∙ ap (λ (b : Bytes). b ++ joined ps) (take-append-drop size p)))
    ]

append-cancel : (a b c d : Bytes) → a ++ b ≡ c ++ d → length a ≡ length c → (a ≡ c) × (b ≡ d)
append-cancel [] b [] d e h = (refl, e)
append-cancel [] b (y ∷ c) d e h = absurd (omega arith)
append-cancel (x ∷ a) b [] d e h = absurd (omega arith)
append-cancel (x ∷ a) b (y ∷ c) d e h =
    let (p, q) = append-cancel a b c d (ground arith) (omega arith) in (ground arith, q)

-- what the first read leaves of the segments of a frame
abbrev behind_head : Bytes → Segments → Segments
behind_head seg ps = if leb (length seg) 14 then ps else drop 14 seg ∷ ps

recv-head :
    (seg : Bytes) (ps segs : Segments)
    → 14 ≤ length seg
    → recv 14 (seg ∷ ps ++ segs) ≡ (take 14 seg, behind_head seg ps ++ segs)
unfolding recv
recv-head seg ps segs h = ground arith

behind_head_lem :
    (seg : Bytes) (ps : Segments)
    → AllNonempty ps
    → (joined (behind_head seg ps) ≡ drop 14 seg ++ joined ps) × AllNonempty (behind_head seg ps)
behind_head_lem seg ps w = elim (Bool-cases (leb (length seg) 14)) [
  | inl b ↦
      rw b
        (ap (λ (x : Bytes). x ++ joined ps) (sym (drop_all 14 seg (leb→le (length seg) 14 b))), w)
  | inr b ↦ rw b (refl, (omega (arith, length-drop 14 seg, leb→lt (length seg) 14 b), w))
]

-- The segments of a frame: none is empty, the first has at least the fourteen bytes of the first read,
-- and together they are the frame.
abbrev pub IsCut : Bytes → Segments → Type 0
IsCut frame [] = ⊥
IsCut frame (seg ∷ ps) = (14 ≤ length seg) × AllNonempty ps × (joined (seg ∷ ps) ≡ frame)

-- A frame is received as it is, however it is cut behind its first fourteen bytes, and the segments
-- behind it stay.
pub recv_frame-pieces :
    (j : Json) (h : FrameHeader) (payload : Bytes) (pieces segs : Segments)
    → IsCut (frame_of j h payload) pieces
    → recv_frame (pieces ++ segs) ≡ (got (frame_of j h payload), segs)
recv_frame-pieces j h payload [] segs cut = absurd cut
recv_frame-pieces j h payload (seg ∷ ps) segs (long, w, e) =
    let json = j.dumps (dict_of j h) in
    let header = frame_head (length json) (length payload) in
    let first = recv-head seg ps segs long in
    let (kept, w') = behind_head_lem seg ps w in
    let front = length-take_of_le 14 seg long in
    let (is_header, left) =
      append-cancel (take 14 seg) (drop 14 seg ++ joined ps) header (json ++ payload)
        (sym (append_assoc (take 14 seg) (drop 14 seg) (joined ps))
          ∙ ap (λ (b : Bytes). b ++ joined ps) (take-append-drop 14 seg)
          ∙ e)
        (omega arith) in
    recv_frame_step (length json) (length payload) (seg ∷ ps ++ segs)
      (ap (λ r. r.0) first ∙ is_header)
    ∙ ap
        (λ r.
          recv_rest (suc (14 + length json + length payload)) (14 + length json + length payload)
            header r.1)
        first
    ∙ recv_rest-pieces (suc (14 + length json + length payload)) (14 + length json + length payload)
        header (behind_head seg ps) segs w'
        (omega (arith, ap length kept, ap length left, length-append json payload))
        (omega (arith, ap length kept, ap length left, length-append json payload))
    ∙ ap (λ (b : Bytes). (got (header ++ b), segs)) (kept ∙ left)
