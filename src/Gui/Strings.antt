-- ===== src/Gui/Strings.antt =====
-- What emmc-gui/crates/emmc-gui/src/app.rs uses of the strings of Rust: `splitn`, `parse` and, in
-- the panels, `to_string` of a number. A string is the bytes of its UTF-8 text.
pub mod Numbers
use Prim.Native.Char.{code}
use fpga_emmc_card_reader.Base.{
  ℕ, zero, suc, ◌+◌, ◌-◌, ◌*◌, ◌/◌, ◌%◌, [], ◌∷◌, ◌++◌, List, Bool, true, false, ◌&&◌,
  if◌then◌else◌, ◌==◌, ltb, leb, Bytes, Option, none, some, String,
}

-- The bytes of an ASCII text.
abbrev pub codes : String → Bytes
codes String.[] = []
codes (String.◌∷◌ c s) = code c ∷ codes s

abbrev pub colon : ℕ
colon = 0x3A

abbrev pub onto_first : ℕ → List Bytes → List Bytes
onto_first b [] = (b ∷ []) ∷ []
onto_first b (part ∷ parts) = (b ∷ part) ∷ parts

-- `s.splitn(n + 1, ':')`: at most `n` cuts.
unfoldable pub splitn : ℕ → Bytes → List Bytes
splitn n [] = [] ∷ []
splitn zero (b ∷ s) = (b ∷ s) ∷ []
splitn (suc n) (b ∷ s) =
    let cut = splitn n s in
    let on = splitn (suc n) s in if b == colon then [] ∷ cut else onto_first b on

-- The value of decimal digits, from the value of those before them. Overflow is an error.
unfoldable pub parse_digits : ℕ → ℕ → Bytes → Option ℕ
parse_digits limit value [] = some value
parse_digits limit value (b ∷ s) =
    let next = value * 10 + (b - b'0') in
    let rest = parse_digits limit next s in
    if leb b'0' b && leb b b'9' && ltb next limit then rest else none

abbrev pub nonempty_digits : ℕ → Bytes → Option ℕ
nonempty_digits limit [] = none
nonempty_digits limit (b ∷ s) = parse_digits limit 0 (b ∷ s)

-- `parse` of an unsigned number below `limit`. One plus sign may stand before the digits.
unfoldable pub parse : ℕ → Bytes → Option ℕ
unfolding parse_digits
parse limit [] = none
parse limit (b ∷ s) = if b == b'+' then nonempty_digits limit s else parse_digits limit 0 (b ∷ s)

-- `to_string`: the digits of a number, before those that are there. A number below `2 ^ w` has at
-- most `w` digits, where `w` is not 0.
unfoldable pub digits : ℕ → ℕ → Bytes → Bytes
digits zero n later = later
digits (suc w) n later =
    let here = (b'0' + n % 10) ∷ later in
    let rest = digits w (n / 10) here in if n / 10 == 0 then here else rest

unfoldable pub to_string : ℕ → Bytes
unfolding digits
to_string n = digits 20 n []
