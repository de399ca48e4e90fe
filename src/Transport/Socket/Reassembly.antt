-- ===== src/Transport/Socket/Reassembly.antt =====
-- `_recv_frame` of src/dakv/transport/data_server.py on the segments of a whole frame, and on a header
-- that is cut.
use awarekv.Prelude.{
  ℕ, zero, suc, ◌+◌, ◌-◌, ◌≤◌, ◌<◌, ◌^◌, min, ◌≡◌, refl, ap, arith, [], ◌∷◌, ◌++◌, append_assoc,
  append-nil, length, take, drop, length-append, take-append-drop, length-take-le, leb, lt→ltb,
  le→ltb, Bool-cases, inl, inr, sym, ◌∙◌, length-drop, leb→le, leb→lt, take_all, length-take_of_le,
}
use awarekv.Transport.Struct.{Bytes, be32, unpack_i-be32}
use awarekv.Transport.Protocol.{FrameHeader, Json, dict_of}
use awarekv.Transport.Protocol.RoundTrip.{frame_of}
use awarekv.Transport.Socket.{Segments, got, closed, recv, recv_rest, recv_body, recv_frame}

-- all that is to arrive
abbrev pub joined : Segments → Bytes
joined [] = []
joined (seg ∷ segs) = seg ++ joined segs

-- The network delivers no empty segment: an empty read means that the peer has closed.
abbrev pub AllNonempty : Segments → Type 0
AllNonempty [] = Unit
AllNonempty (seg ∷ segs) = (0 < length seg) × AllNonempty segs

append-split :
    (a b c d : Bytes)
    → a ++ b ≡ c ++ d
    → length a ≤ length c
    → (e : Bytes) × (c ≡ a ++ e) × (b ≡ e ++ d)
append-split [] b c d e h = (c, refl, e)
append-split (x ∷ a) b [] d e h = absurd (omega arith)
append-split (x ∷ a) b (y ∷ c) d e h =
    let (r, p, q) = append-split a b c d (ground arith) (omega arith) in (r, ground arith, q)

-- One read of a positive size takes a nonempty piece off what is to arrive.
recv_lem :
    (n : ℕ) (segs : Segments)
    → AllNonempty segs
    → 0 < n
    → 0 < length (joined segs)
    → ((recv n segs).0 ++ joined (recv n segs).1 ≡ joined segs)
      × AllNonempty (recv n segs).1
      × (0 < length (recv n segs).0)
      × (length (recv n segs).0 ≤ n)
unfolding recv
recv_lem n [] w p h = absurd (omega arith)
recv_lem n (seg ∷ segs) w p h = elim (Bool-cases (leb (length seg) n)) [
  | inl b ↦
      rw b (rw (take_all n seg (leb→le (length seg) n b)) (refl, w.1, w.0, leb→le (length seg) n b))
  | inr b ↦
      let long = leb→lt (length seg) n b in
      rw b (
        sym (append_assoc (take n seg) (drop n seg) (joined segs))
            ∙ ap (λ (front : Bytes). front ++ joined segs) (take-append-drop n seg),
        (omega (arith, length-drop n seg), w.1),
        omega (arith, length-take_of_le n seg (omega arith)),
        length-take-le n seg,
      )
]

recv_rest_lem :
    (fuel total : ℕ) (frame need rest : Bytes) (segs : Segments)
    → AllNonempty segs
    → joined segs ≡ need ++ rest
    → length frame + length need ≡ total
    → length need < fuel
    → (segs' : Segments) × (recv_rest fuel total frame segs ≡ (got (frame ++ need), segs'))
      × (joined segs' ≡ rest)
      × AllNonempty segs'
unfolding recv_rest
recv_rest_lem zero total frame need rest segs w e n h = absurd (omega arith)
recv_rest_lem (suc fuel) total frame [] rest segs w e n h =
    (segs, rw (le→ltb (length frame) total (omega arith), append-nil), e, w)
recv_rest_lem (suc fuel) total frame (x ∷ need) rest segs w e n h =
    let size = min 4096 (total - length frame) in
    let (whole, w', some_byte, few) = recv_lem size segs w (omega arith) (rw e (omega arith)) in
    let (more, split, left) =
      append-split (recv size segs).0 (joined (recv size segs).1) (x ∷ need) rest (whole ∙ e)
        (omega arith) in
    let (segs', got_it, at, w'') =
      recv_rest_lem fuel total (frame ++ (recv size segs).0) more rest (recv size segs).1 w' left
        (omega (
          arith,
          length-append frame (recv size segs).0,
          ap length split,
          length-append (recv size segs).0 more,
        ))
        (omega (arith, ap length split, length-append (recv size segs).0 more)) in
    (segs', ground (arith, got_it, split, append_assoc frame (recv size segs).0 more), at, w'')

-- the fourteen bytes in front of the JSON header
abbrev pub frame_head : ℕ → ℕ → Bytes
frame_head m n = b'D' ∷ b'A' ∷ b'K' ∷ b'V' ∷ 0 ∷ 1 ∷ (be32 m ++ be32 n)

recv_body-frame_head :
    (m n : ℕ) (segs : Segments)
    → recv_body (frame_head m n) segs
      ≡ recv_rest (suc (14 + m + n)) (14 + m + n) (frame_head m n) segs
unfolding recv_body
recv_body-frame_head m n segs = ground (arith, unpack_i-be32 m, unpack_i-be32 n)

pub recv_frame_step :
    (m n : ℕ) (segs : Segments)
    → (recv 14 segs).0 ≡ frame_head m n
    → recv_frame segs ≡ recv_rest (suc (14 + m + n)) (14 + m + n) (frame_head m n) (recv 14 segs).1
unfolding recv_frame
recv_frame_step m n segs e = rw (e, recv_body-frame_head m n)

length-zero : (a : Bytes) → length a ≡ 0 → a ≡ []
length-zero [] h = refl
length-zero (x ∷ a) h = absurd (omega arith)

whole_prefix : (a c e : Bytes) → c ≡ a ++ e → length a ≡ length c → a ≡ c
whole_prefix [] [] e p h = refl
whole_prefix [] (y ∷ c) e p h = absurd (omega arith)
whole_prefix (x ∷ a) [] e p h = absurd (omega arith)
whole_prefix (x ∷ a) (y ∷ c) e p h = ground (arith, whole_prefix a c e (ground arith) (omega arith))

-- The header is complete in the first segment. Then, however the rest of the frame is cut up, and
-- whatever follows it, `_recv_frame` returns the frame, and leaves what follows.
pub recv_frame-frame_of :
    (j : Json) (h : FrameHeader) (payload rest seg : Bytes) (segs : Segments)
    → length (j.dumps (dict_of j h)) < 2 ^ 32
    → length payload < 2 ^ 32
    → AllNonempty (seg ∷ segs)
    → 14 ≤ length seg
    → joined (seg ∷ segs) ≡ frame_of j h payload ++ rest
    → (segs' : Segments) × (recv_frame (seg ∷ segs) ≡ (got (frame_of j h payload), segs'))
      × (joined segs' ≡ rest)
      × AllNonempty segs'
recv_frame-frame_of j h payload rest seg segs a b w front e =
    let json = j.dumps (dict_of j h) in
    let header = frame_head (length json) (length payload) in
    let (whole, w', _, few) =
      recv_lem 14 (seg ∷ segs) w (omega arith)
        (omega (arith, w.0, length-append seg (joined segs))) in
    let chunk = (recv 14 (seg ∷ segs)).0 in
    let full : length chunk ≡ 14 = unfold recv in length-take_of_le 14 seg front in
    let (none_left, same, left) =
      append-split chunk (joined (recv 14 (seg ∷ segs)).1) header (json ++ (payload ++ rest))
        (whole ∙ (e ∙ ap (λ (b : Bytes). header ++ b) (append_assoc json payload rest)))
        (omega arith) in
    let is_header : chunk ≡ header = whole_prefix chunk header none_left same (omega arith) in
    let nothing : none_left ≡ [] =
      length-zero none_left (omega (arith, ap length same, length-append chunk none_left)) in
    let (segs', got_it, at, w'') =
      recv_rest_lem (suc (14 + length json + length payload)) (14 + length json + length payload)
        header (json ++ payload) rest (recv 14 (seg ∷ segs)).1 w'
        (left ∙ (rw nothing (sym (append_assoc json payload rest))))
        (omega (arith, length-append json payload)) (omega (arith, length-append json payload)) in
    (segs', recv_frame_step (length json) (length payload) (seg ∷ segs) is_header ∙ got_it, at, w'')

-- When the first segment has fewer than fourteen bytes the connection counts as closed, whatever
-- segments follow: the first read is not repeated.
pub recv_frame_short :
    (seg : Bytes) (segs : Segments) → length seg < 14 → (recv_frame (seg ∷ segs)).0 ≡ closed
unfolding recv_frame recv
recv_frame_short seg segs h =
    rw (lt→ltb (length (take 14 seg)) 14 (rw (take_all 14 seg (omega arith)) h))
