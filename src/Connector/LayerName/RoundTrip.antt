-- ===== src/Connector/LayerName/RoundTrip.antt =====
-- The name of a layer in src/dakv/connector/vllm_adapter.py, read back.
use awarekv.Prelude.{
  ℕ, zero, suc, ◌+◌, ◌/◌, ◌%◌, ◌≤◌, ◌<◌, some, [], ◌∷◌, pos, ◌≡◌, ◌≢◌, refl, ap, arith,
}
use mathlib.Core.Path.{◌≡⟨◌⟩◌, ◌∎}
use awarekv.Connector.LayerName.{
  Text, digits, extract_layer_name, strip_left, strip_right, scan, signed, int_of, behind, unsigned,
  plus, extract_layer_idx, named_layer_idx,
}

abbrev IsDigit : ℕ → Type 0
IsDigit c = (b'0' ≤ c) × (c ≤ b'9')

abbrev AllDigits : Text → Type 0
AllDigits [] = Unit
AllDigits (c ∷ s) = IsDigit c × AllDigits s

digits-AllDigits : (fuel n : ℕ) (out : Text) → AllDigits out → AllDigits (digits fuel n out)
unfolding digits
digits-AllDigits zero n out h = h
digits-AllDigits (suc fuel) n out h =
    ground (arith, digits-AllDigits fuel (n / 10) ((b'0' + n % 10) ∷ out))

-- Reading the digits of a number is reading on from the number.
scan-digits : (fuel n : ℕ) (out : Text) → n < fuel → scan 0 (digits fuel n out) ≡ scan n out
unfolding digits
scan-digits zero n out h = absurd (omega arith)
scan-digits (suc fuel) n out h = ground (arith, scan-digits fuel (n / 10) ((b'0' + n % 10) ∷ out))

strip_left-AllDigits : (s : Text) → AllDigits s → strip_left s ≡ s
strip_left-AllDigits [] h = refl
strip_left-AllDigits (c ∷ s) h = ground arith

strip_right-AllDigits : (s : Text) → AllDigits s → strip_right s ≡ s
strip_right-AllDigits [] h = refl
strip_right-AllDigits (c ∷ []) h = ground arith
strip_right-AllDigits (c ∷ d ∷ s) h = ground (arith, strip_right-AllDigits (d ∷ s))

signed-AllDigits : (s : Text) → AllDigits s → signed s ≡ plus (unsigned s)
signed-AllDigits [] h = refl
signed-AllDigits (c ∷ s) h = ground arith

behind-AllDigits : (s best : Text) → AllDigits s → behind s best ≡ best
behind-AllDigits [] best h = refl
behind-AllDigits (c ∷ s) best h = ground (arith, behind-AllDigits s best)

digits-ne-nil : (fuel n : ℕ) (out : Text) → out ≢ [] → digits fuel n out ≢ []
unfolding digits
digits-ne-nil zero n out h = h
digits-ne-nil (suc fuel) n out h =
    ground (arith, digits-ne-nil fuel (n / 10) ((b'0' + n % 10) ∷ out) (λ e. cc))

unsigned-scan : (s : Text) → s ≢ [] → unsigned s ≡ scan 0 s
unsigned-scan [] h = absurd (h refl)
unsigned-scan (c ∷ s) h = refl

digits_of-ne-nil : (i : ℕ) → digits (suc i) i [] ≢ []
unfolding digits
digits_of-ne-nil i = ground (arith, digits-ne-nil i (i / 10) ((b'0' + i % 10) ∷ []) (λ e. cc))

-- Python's `int` reads what its decimal format writes.
int_of-digits : (i : ℕ) → int_of (digits (suc i) i []) ≡ some (pos i)
unfolding int_of
int_of-digits i =
    let text = digits (suc i) i [] in
    let ds = digits-AllDigits (suc i) i [] tt in
    int_of text
    ≡⟨ ap (λ s. signed (strip_left s)) (strip_right-AllDigits text ds) ⟩ signed (strip_left text)
    ≡⟨ ap signed (strip_left-AllDigits text ds) ⟩ signed text
    ≡⟨ signed-AllDigits text ds ⟩ plus (unsigned text)
    ≡⟨ ap plus (unsigned-scan text (digits_of-ne-nil i)) ⟩ plus (scan 0 text)
    ≡⟨ ap plus (scan-digits (suc i) i [] (omega arith)) ⟩ some (pos i) ∎

-- The name that the adapter gives to a layer is read as the layer's index by the worker, which loads
-- the layer, and by the save session, which files it, however many digits the index has.
pub extract_layer_idx-extract_layer_name :
    (i : ℕ)
    → (extract_layer_idx (extract_layer_name i) ≡ some (pos i))
      × (named_layer_idx (extract_layer_name i) ≡ some (pos i))
unfolding extract_layer_idx named_layer_idx extract_layer_name
extract_layer_idx-extract_layer_name i =
    let ds = digits-AllDigits (suc i) i [] tt in
    let e = behind-AllDigits (digits (suc i) i []) (digits (suc i) i []) ds in
    (rw e (int_of-digits i), rw e (int_of-digits i))
