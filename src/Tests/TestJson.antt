-- ===== src/Tests/TestJson.antt =====
-- A concrete stand-in for the JSON library: texts as the numbers of their characters, each text closed
-- by a zero.
use Prim.Native.Char.{Char, char, code, IsScalar, IsLt}
use Prim.Native.Nat.{Ordering, compare}
use awarekv.Prelude.{
  ℕ, zero, suc, String, Option, none, some, [], ◌∷◌, ◌≡◌, refl, ap, ◌∙◌, Result, ok, raise,
  json_error,
}
use awarekv.Transport.Struct.{Bytes}
use awarekv.Transport.Protocol.{HeaderDict, Json, JsonLaws}

abbrev Both : Ordering → Ordering → Type 0
Both Ordering.lt o = IsLt o
Both Ordering.eq _ = ⊥
Both Ordering.gt _ = ⊥

abbrev InRange : Ordering → Ordering → Ordering → Type 0
InRange Ordering.lt _ _ = Unit
InRange Ordering.eq o p = Both o p
InRange Ordering.gt o p = Both o p

abbrev pick_lt : (o : Ordering) → Option (IsLt o)
pick_lt Ordering.lt = some tt
pick_lt Ordering.eq = none
pick_lt Ordering.gt = none

abbrev pick_both : (o p : Ordering) → Option (Both o p)
pick_both Ordering.lt p = pick_lt p
pick_both Ordering.eq p = none
pick_both Ordering.gt p = none

abbrev pick : (o p q : Ordering) → Option (InRange o p q)
pick Ordering.lt p q = some tt
pick Ordering.eq p q = pick_both p q
pick Ordering.gt p q = pick_both p q

pick_lt-some : (o : Ordering) (x : IsLt o) → pick_lt o ≡ some x
pick_lt-some Ordering.lt x = refl
pick_lt-some Ordering.eq x = absurd x
pick_lt-some Ordering.gt x = absurd x

pick_both-some : (o p : Ordering) (x : Both o p) → pick_both o p ≡ some x
pick_both-some Ordering.lt p x = pick_lt-some p x
pick_both-some Ordering.eq p x = absurd x
pick_both-some Ordering.gt p x = absurd x

pick-some : (o p q : Ordering) (x : InRange o p q) → pick o p q ≡ some x
pick-some Ordering.lt p q x = refl
pick-some Ordering.eq p q x = pick_both-some p q x
pick-some Ordering.gt p q x = pick_both-some p q x

abbrev scalar : (n : ℕ) → Option (IsScalar n)
scalar n = pick (compare n 55296) (compare 57343 n) (compare n 1114112)

abbrev from_scalar : (n : ℕ) → Option (IsScalar n) → Option Char
from_scalar n none = none
from_scalar n (some p) = some (char n p)

abbrev to_char : ℕ → Option Char
to_char n = from_scalar n (scalar n)

to_char-code : (c : Char) → to_char (code c) ≡ some c
to_char-code (char n p) =
    ap (from_scalar n) (pick-some (compare n 55296) (compare 57343 n) (compare n 1114112) p)

-- a text in front of the rest
abbrev put_text : String → Bytes → Bytes
put_text String.[] rest = 0 ∷ rest
put_text (String.◌∷◌ c s) rest = suc (code c) ∷ put_text s rest

abbrev with_text : Option Char → Option (String × Bytes) → Option (String × Bytes)
with_text (some c) (some (s, r)) = some (String.◌∷◌ c s, r)
with_text (some c) none = none
with_text none x = none

unfoldable pub get_text : Bytes → Option (String × Bytes)
get_text [] = none
get_text (zero ∷ rest) = some (String.[], rest)
get_text (suc n ∷ rest) = with_text (to_char n) (get_text rest)

get-put_text : (s : String) (rest : Bytes) → get_text (put_text s rest) ≡ some (s, rest)
unfolding get_text
get-put_text String.[] rest = refl
get-put_text (String.◌∷◌ c s) rest =
    ap (λ x. with_text x (get_text (put_text s rest))) (to_char-code c)
    ∙ ap (with_text (some c)) (get-put_text s rest)

-- the header's seven entries, in their order
unfoldable pub test_dumps : HeaderDict → Bytes
test_dumps d = put_text d.op (
    put_text d.request_id (
      put_text d.object_id
        (put_text d.tier (put_text d.codec (put_text d.checksum (d.deadline_ms ∷ []))))))

-- one text, and what is made of it and the rest
then_text : Bytes → (String → Bytes → Result HeaderDict) → Result HeaderDict
unfolding get_text
then_text b k = elim (get_text b) [ none ↦ raise json_error | some (s, r) ↦ k s r ]

then_text-put :
    (s : String) (rest : Bytes) (k : String → Bytes → Result HeaderDict)
    → then_text (put_text s rest) k ≡ k s rest
unfolding then_text
then_text-put s rest k = rw (then_text, get-put_text s rest) refl

pub test_loads : Bytes → Result HeaderDict
test_loads b = then_text b λ op b. then_text b λ rid b. then_text b λ oid b. then_text b λ tier b.
    then_text b λ codec b. then_text b λ checksum b. elim b [
      | [] ↦ raise json_error
      | n ∷ ns ↦ ok (record {
        op = op;
        request_id = rid;
        object_id = oid;
        tier = tier;
        codec = codec;
        checksum = checksum;
        deadline_ms = n;
      })
    ]

abbrev pub test_json : Json
test_json = record { dumps = test_dumps; loads = test_loads }

test_loads-dumps : (d : HeaderDict) → test_loads (test_dumps d) ≡ ok d
unfolding test_loads test_dumps
test_loads-dumps d =
    let r1 = d.deadline_ms ∷ [] in
    let r2 = put_text d.checksum r1 in
    let r3 = put_text d.codec r2 in
    let r4 = put_text d.tier r3 in
    let r5 = put_text d.object_id r4 in
    let r6 = put_text d.request_id r5 in
    rw (then_text-put d.op r6, then_text-put d.request_id r5, then_text-put d.object_id r4)
      (rw (then_text-put d.tier r3, then_text-put d.codec r2, then_text-put d.checksum r1))

pub test_json-JsonLaws : JsonLaws test_json
test_json-JsonLaws = record { loads-dumps = test_loads-dumps }
