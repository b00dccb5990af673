-- ===== src/Adapter/Compare.antt =====
-- What `verify` and `blank_check` say of the bytes that were read.
use fpga_emmc_card_reader.Base.{
  ℕ, suc, ◌+◌, ◌<◌, [], ◌∷◌, List, ◌≡◌, ◌≢◌, ◌⊎◌, ◌↔◌, refl, ap₂, sym, subst, arith, true, not,
  ◌&&◌, ◌==◌, ==_iff, ==-self, Bool-cases, inl, inr, Option, none, some, length, take, All, Bytes,
  byte_at,
}
use fpga_emmc_card_reader.Adapter.{VerifyMismatch, is_ok, compare_from, position_from}

compare_from-same : (addr i : ℕ) (xs : Bytes) → compare_from addr i xs xs ≡ []
unfolding compare_from
compare_from-same addr i [] = refl
compare_from-same addr i (x ∷ xs) = rw (==-self x) (compare_from-same addr (i + 1) xs)

compare_from-nil :
    (addr i : ℕ) (xs ys : Bytes) → length xs ≡ length ys → compare_from addr i xs ys ≡ [] → xs ≡ ys
unfolding compare_from
compare_from-nil addr i [] [] l h = refl
compare_from-nil addr i [] (y ∷ ys) l h = absurd (omega arith)
compare_from-nil addr i (x ∷ xs) [] l h = absurd (omega arith)
compare_from-nil addr i (x ∷ xs) (y ∷ ys) l h = elim (Bool-cases (x == y)) [
  | inl e ↦
      ap₂ ◌∷◌ ((==_iff x y).0 e) (compare_from-nil addr (i + 1) xs ys (omega arith) (rw e at h))
  | inr e ↦ absurd (cons_nil (rw e at h))
]
  where
    cons_nil : {m : VerifyMismatch} {ms : List VerifyMismatch} → m ∷ ms ≡ [] → ⊥
    cons_nil e = cc

-- For as many bytes as were expected, a verification is reported as a success exactly if they are
-- the expected ones.
pub is_ok_iff :
    (addr total : ℕ) (expected actual : Bytes)
    → length expected ≡ length actual
    → (is_ok (record { total_bytes = total; mismatches = compare_from addr 0 expected actual })
        ≡ true)
      ↔ (expected ≡ actual)
unfolding is_ok
is_ok_iff addr total expected actual l = (
  (λ e. compare_from-nil addr 0 expected actual l (is_ok-nil _ e)),
  (λ e.
      subst (λ ms. is_ok (record { total_bytes = total; mismatches = ms }) ≡ true)
        (sym (
          subst (λ ys. compare_from addr 0 expected ys ≡ []) e (compare_from-same addr 0 expected)))
        refl),
)
  where
    is_ok-nil :
        (ms : List VerifyMismatch)
        → is_ok (record { total_bytes = total; mismatches = ms }) ≡ true
        → ms ≡ []
    is_ok-nil [] e = refl
    is_ok-nil (m ∷ ms) e = absurd (ground arith)

-- A byte that an erased card can hold.
abbrev pub IsBlank : ℕ → Type 0
IsBlank b = (b ≡ 0x00) ⊎ (b ≡ 0xFF)

-- `found` is the place, counted from `i`, of the first byte that is not blank.
abbrev pub IsFirst : ℕ → Bytes → Option ℕ → Type 0
IsFirst i data' none = All IsBlank data'
IsFirst i data' (some p) =
    (k : ℕ) × (p ≡ i + k)
    × (k < length data')
    × (byte_at data' k ≢ 0x00)
    × (byte_at data' k ≢ 0xFF)
    × All IsBlank (take k data')

-- The place that a blank check reports is that of the first byte that is neither 0 nor 0xFF; it
-- reports none exactly where every byte is one of them.
pub position_from-IsFirst : (i : ℕ) (data' : Bytes) → IsFirst i data' (position_from i data')
unfolding position_from
position_from-IsFirst i [] = tt
position_from-IsFirst i (b ∷ data') = elim (Bool-cases (not (b == 0x00) && not (b == 0xFF))) [
  | inl e ↦ rw e (0, omega arith, omega arith, ground arith, ground arith, tt)
  | inr e ↦
      rw e
        (shifted (position_from (i + 1) data') (ground arith) (position_from-IsFirst (i + 1) data'))
]
  where
    shifted :
        (found : Option ℕ) → IsBlank b → IsFirst (i + 1) data' found → IsFirst i (b ∷ data') found
    shifted none blank h = (blank, h)
    shifted (some p) blank (k, e, l, z, f, before) =
        (suc k, omega arith, omega arith, z, f, (blank, before))
