-- ===== src/Gui/Strings/Numbers.antt =====
-- A number comes back from its text, and a text comes apart at its colons.
use fpga_emmc_card_reader.Base.{
  ℕ, zero, suc, ◌+◌, ◌-◌, ◌*◌, ◌/◌, ◌%◌, ◌^◌, ◌≤◌, ◌<◌, [], ◌∷◌, ◌++◌, List, true, false, ◌==◌, leb,
  Bytes, some, ◌≡◌, refl, ap, ◌∙◌, arith, lt→ltb, ==_iff, Bool-cases, inl, inr, All,
}
use fpga_emmc_card_reader.Gui.Strings.{
  splitn, onto_first, parse, parse_digits, digits, to_string, colon,
}

abbrev pub IsDigit : ℕ → Type 0
IsDigit b = (b'0' ≤ b) × (b ≤ b'9')

le→leb : (a b : ℕ) → a ≤ b → leb a b ≡ true
le→leb a b h = ground arith

parse_digits-digit :
    (limit value d : ℕ) (later : Bytes)
    → d < 10
    → value * 10 + d < limit
    → parse_digits limit value ((b'0' + d) ∷ later) ≡ parse_digits limit (value * 10 + d) later
unfolding parse_digits
parse_digits-digit limit value d later h k =
    rw (lower, le→leb (b'0' + d) b'9' (omega arith), gone) (rw (lt→ltb _ _ k) refl)
  where
    lower : leb b'0' (b'0' + d) ≡ true
    lower = le→leb b'0' (b'0' + d) (omega arith)

    gone : b'0' + d - b'0' ≡ d
    gone = omega arith

ten_pow : (w : ℕ) → 10 ^ suc w ≡ 10 * 10 ^ w
ten_pow w = omega arith

one_digit :
    (n limit : ℕ) (later : Bytes)
    → n < 10
    → n < limit
    → parse_digits limit 0 ((b'0' + n % 10) ∷ later) ≡ parse_digits limit n later
one_digit n limit later h k =
    parse_digits-digit limit 0 (n % 10) later (omega arith) (omega arith)
    ∙ ap (λ v. parse_digits limit v later) (omega arith)

-- What the digits in front of a text add to its value.
parse_digits-digits :
    (w n limit : ℕ) (later : Bytes)
    → n < 10 ^ suc w
    → n < limit
    → parse_digits limit 0 (digits (suc w) n later) ≡ parse_digits limit n later
unfolding digits
parse_digits-digits zero n limit later h k = elim (Bool-cases (n / 10 == 0)) [
  | inl e ↦ rw e (one_digit n limit later h k)
  | inr e ↦ rw e (one_digit n limit later h k)
]
parse_digits-digits (suc w) n limit later h k = elim (Bool-cases (n / 10 == 0)) [
  | inl e ↦ rw e (one_digit n limit later (small n ((==_iff _ _).0 e)) k)
  | inr e ↦ rw e (
      parse_digits-digits w (n / 10) limit ((b'0' + n % 10) ∷ later)
        (omega (arith, ten_pow (suc w))) (omega arith)
      ∙ parse_digits-digit limit (n / 10) (n % 10) later (omega arith) (omega arith)
      ∙ ap (λ v. parse_digits limit v later) (omega arith))
]
  where
    small : (n : ℕ) → n / 10 ≡ 0 → n < 10
    small n e = omega arith

digits-IsDigit : (w n : ℕ) (later : Bytes) → All IsDigit later → All IsDigit (digits w n later)
unfolding digits
digits-IsDigit zero n later h = h
digits-IsDigit (suc w) n later h = elim (Bool-cases (n / 10 == 0)) [
  | inl e ↦ rw e (here, h)
  | inr e ↦ rw e (digits-IsDigit w (n / 10) ((b'0' + n % 10) ∷ later) (here, h))
]
  where
    here : IsDigit (b'0' + n % 10)
    here = (omega arith, omega arith)

-- At least one digit.
digits-cons :
    (w n b : ℕ) (later : Bytes) → (c : ℕ) × (rest : Bytes) × (digits w n (b ∷ later) ≡ c ∷ rest)
unfolding digits
digits-cons zero n b later = (b, later, refl)
digits-cons (suc w) n b later = elim (Bool-cases (n / 10 == 0)) [
  | inl e ↦ (b'0' + n % 10, b ∷ later, rw e refl)
  | inr e ↦
      let more = digits-cons w (n / 10) (b'0' + n % 10) (b ∷ later) in (more.0, more.1, rw e more.2)
]

parse-digits :
    (limit : ℕ) (xs : Bytes) (c : ℕ) (rest : Bytes)
    → xs ≡ c ∷ rest
    → All IsDigit xs
    → parse limit xs ≡ parse_digits limit 0 xs
unfolding parse
parse-digits limit [] c rest e h = cc
parse-digits limit (x ∷ xs) c rest e h = rw (unsigned x h.0) refl
  where
    unsigned : (x : ℕ) → IsDigit x → (x == b'+') ≡ false
    unsigned x h = ground (arith, h)

to_string-cons : (n : ℕ) → (c : ℕ) × (rest : Bytes) × (to_string n ≡ c ∷ rest)
unfolding to_string digits
to_string-cons n = elim (Bool-cases (n / 10 == 0)) [
  | inl e ↦ (b'0' + n % 10, [], rw e refl)
  | inr e ↦ let more = digits-cons 19 (n / 10) (b'0' + n % 10) [] in (more.0, more.1, rw e more.2)
]

parse_digits-nil : (limit n : ℕ) → parse_digits limit n [] ≡ some n
unfolding parse_digits
parse_digits-nil limit n = refl

pub to_string-IsDigit : (n : ℕ) → All IsDigit (to_string n)
unfolding to_string
to_string-IsDigit n = digits-IsDigit 20 n [] tt

-- A number below `10 ^ 20`, as all of 64 bits are, comes back from its text.
pub parse-to_string :
    (limit n : ℕ) → n < limit → limit ≤ 18446744073709551616 → parse limit (to_string n) ≡ some n
unfolding to_string
parse-to_string limit n h k =
    let (c, rest, e) = to_string-cons n in
    parse-digits limit (to_string n) c rest e (to_string-IsDigit n)
    ∙ parse_digits-digits 19 n limit [] (omega arith) h
    ∙ parse_digits-nil limit n

onto_first-cons :
    (b : ℕ) (part : Bytes) (parts : List Bytes) → onto_first b (part ∷ parts) ≡ (b ∷ part) ∷ parts
onto_first-cons b part parts = refl

no_colon : (b : ℕ) → IsDigit b → (b == colon) ≡ false
no_colon b h = ground (arith, h)

-- Digits up to a colon are the first part, and digits at the end the last one.
pub splitn-colon :
    (n : ℕ) (xs ys : Bytes) → All IsDigit xs → splitn (suc n) (xs ++ colon ∷ ys) ≡ xs ∷ splitn n ys
unfolding splitn
splitn-colon n [] ys h = refl
splitn-colon n (x ∷ xs) ys h = rw (no_colon x h.0, splitn-colon n xs ys h.1) refl

pub splitn-digits : (n : ℕ) (xs : Bytes) → All IsDigit xs → splitn n xs ≡ xs ∷ []
unfolding splitn
splitn-digits zero [] h = refl
splitn-digits (suc n) [] h = refl
splitn-digits zero (x ∷ xs) h = refl
splitn-digits (suc n) (x ∷ xs) h = rw (no_colon x h.0, splitn-digits (suc n) xs h.1) refl
