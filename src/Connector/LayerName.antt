-- ===== src/Connector/LayerName.antt =====
-- The names of layers, as texts of ASCII codes: `extract_layer_name` of src/dakv/connector/vllm_adapter.py,
-- `_extract_layer_idx` of src/dakv/connector/worker_side.py, and the index that `add_layer` of
-- src/dakv/connector/save_session.py reads, with Python's `int` and decimal format.
pub mod RoundTrip
use awarekv.Prelude.{
  ℕ, zero, suc, ◌+◌, ◌-◌, ◌*◌, ◌/◌, ◌%◌, Bool, true, false, ◌&&◌, ◌||◌, Option, none, some, List,
  [], ◌∷◌, ◌++◌, ℤ, pos, negsuc, if◌then◌else◌, nat_eqb, ltb, leb, length,
}

abbrev pub Text : Type 0
Text = List ℕ

-- The decimal digits of a number, in front of a text. The first argument bounds the digits.
unfoldable pub digits : ℕ → ℕ → Text → Text
digits zero n out = out
digits (suc fuel) n out =
    let rest = digits fuel (n / 10) ((b'0' + n % 10) ∷ out) in
    if ltb n 10 then (b'0' + n) ∷ out else rest

-- `extract_layer_name`: a number has fewer digits than its successor counts
unfoldable pub extract_layer_name : ℕ → Text
unfolding digits
extract_layer_name i = b'l' ∷ b'a' ∷ b'y' ∷ b'e' ∷ b'r' ∷ b'_' ∷ digits (suc i) i []

abbrev pub is_space : ℕ → Bool
is_space c = nat_eqb c 32 || (leb 9 c && leb c 13) || (leb 28 c && leb c 31)

abbrev pub strip_left : Text → Text
strip_left [] = []
strip_left (c ∷ s) = if is_space c then strip_left s else c ∷ s

abbrev pub drop_last : ℕ → Text → Text
drop_last c [] = if is_space c then [] else c ∷ []
drop_last c (d ∷ s) = c ∷ d ∷ s

abbrev pub strip_right : Text → Text
strip_right [] = []
strip_right (c ∷ s) = drop_last c (strip_right s)

abbrev pub scan : ℕ → Text → Option ℕ
scan n [] = some n
scan n (c ∷ s) =
    let rest = scan (n * 10 + (c - b'0')) s in if ltb c b'0' || ltb b'9' c then none else rest

abbrev pub unsigned : Text → Option ℕ
unsigned [] = none
unsigned (c ∷ s) = scan 0 (c ∷ s)

abbrev pub plus : Option ℕ → Option ℤ
plus none = none
plus (some n) = some (pos n)

abbrev pub minus : Option ℕ → Option ℤ
minus none = none
minus (some zero) = some (pos 0)
minus (some (suc n)) = some (negsuc n)

abbrev pub signed : Text → Option ℤ
signed [] = none
signed (c ∷ s) =
    if nat_eqb c b'-'
    then minus (unsigned s)
    else if nat_eqb c b'+'
    then plus (unsigned s)
    else plus (unsigned (c ∷ s))

-- `int` of a text without underscores; `none` is ValueError
unfoldable pub int_of : Text → Option ℤ
int_of s = signed (strip_left (strip_right s))

-- the part behind the last underscore, or else the second argument
abbrev pub behind : Text → Text → Text
behind [] best = best
behind (c ∷ s) best = if nat_eqb c b'_' then behind s s else behind s best

abbrev pub has_underscore : Text → Bool
has_underscore [] = false
has_underscore (c ∷ s) = nat_eqb c b'_' || has_underscore s

-- `_extract_layer_idx`: split("_")[-1] is the whole name where it has no underscore
unfoldable pub extract_layer_idx : Text → Option ℤ
unfolding int_of
extract_layer_idx name = if has_underscore name then int_of (behind name name) else int_of name

-- what `add_layer` reads: `none` where it counts the layers instead
unfoldable pub named_layer_idx : Text → Option ℤ
unfolding int_of
named_layer_idx name = if has_underscore name then int_of (behind name name) else none
