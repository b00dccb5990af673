-- ===== src/App/Restoring/Batches.antt =====
-- The batches of `restore_from_file` are the pieces of the file from its start on, filled up to whole
-- sectors.
use fpga_emmc_card_reader.Base.{
  ℕ, zero, suc, ◌+◌, ◌-◌, ◌*◌, ◌/◌, ◌%◌, ◌≤◌, ◌<◌, min, [], ◌∷◌, ◌++◌, List, ◌≡◌, refl, sym, ap,
  ◌∙◌, arith, true, false, ◌==◌, leb, length, take, drop, replicate, Bytes, ok, length-take,
  length-drop, length-append, length-replicate, take-min, drop-drop, append-nil, Bool-cases, inl,
  inr, ==_iff,
}
use fpga_emmc_card_reader.Base.Try.{slice?}
use fpga_emmc_card_reader.Protocol.Ids.{sector_size}
use fpga_emmc_card_reader.Protocol.Sectors.{pad_to_sector}
use fpga_emmc_card_reader.App.Restoring.{batch}

le→leb : (a b : ℕ) → a ≤ b → leb a b ≡ true
le→leb a b h = ground arith

-- A piece that reaches into the zeros behind a string.
take-append_zeros :
    (n z m : ℕ) (h : Bytes)
    → n ≤ length h + z
    → n - length h ≡ m
    → take n (h ++ replicate z 0) ≡ take n h ++ replicate m 0
take-append_zeros zero z zero h k e = refl
take-append_zeros zero z (suc m) h k e = absurd (omega arith)
take-append_zeros (suc n) z zero [] k e = absurd (omega arith)
take-append_zeros (suc n) zero (suc m) [] k e = absurd (omega arith)
take-append_zeros (suc n) (suc z) (suc m) [] k e =
    ap (λ (t : Bytes). 0 ∷ t) (zeros n z m (omega arith) (omega arith))
  where
    zeros : (n z m : ℕ) → n ≤ z → n ≡ m → take {A = ℕ} n (replicate z 0) ≡ replicate m 0
    zeros zero z zero k e = refl
    zeros zero z (suc m) k e = absurd (omega arith)
    zeros (suc n) zero m k e = absurd (omega arith)
    zeros (suc n) (suc z) zero k e = absurd (omega arith)
    zeros (suc n) (suc z) (suc m) k e =
        ap (λ (t : Bytes). 0 ∷ t) (zeros n z m (omega arith) (omega arith))
take-append_zeros (suc n) z m (x ∷ h) k e =
    ap (◌∷◌ x) (take-append_zeros n z m h (omega arith) (omega arith))

drop-append :
    {A : Type 0} (k : ℕ) (g zs : List A) → k ≤ length g → drop k (g ++ zs) ≡ drop k g ++ zs
drop-append zero g zs h = refl
drop-append (suc k) [] zs h = absurd (omega arith)
drop-append (suc k) (x ∷ g) zs h = drop-append k g zs (omega arith)

-- The zeros that fill the last sector.
zeros_behind : Bytes → ℕ
zeros_behind g = (512 - length g % 512) % 512

pad_to_sector-append : (g : Bytes) → pad_to_sector g ≡ g ++ replicate (zeros_behind g) 0
unfolding pad_to_sector zeros_behind
pad_to_sector-append g = elim (Bool-cases (length g % 512 == 0)) [
  | inl e ↦
      rw e (
        sym (append-nil g) ∙ ap (λ z. g ++ replicate z 0) (none_left (length g) ((==_iff _ _).0 e)))
  | inr e ↦ rw e (ap (λ z. g ++ replicate z 0) (some_left (length g) e))
]
  where
    none_left : (n : ℕ) → n % 512 ≡ 0 → 0 ≡ (512 - n % 512) % 512
    none_left n e = rw e refl

    some_left : (n : ℕ) → (n % 512 == 0) ≡ false → 512 - n % 512 ≡ (512 - n % 512) % 512
    some_left n e = ground (arith, e)

slice?-take :
    {A : Type 0} (a n : ℕ) (xs : List A)
    → a ≤ length xs
    → slice? a (min (a + n) (length xs)) xs ≡ ok (take n (drop a xs))
slice?-take a n xs h =
    rw (low, high) (ap (λ m. ok (take m (drop a xs))) cut ∙ ap ok (take-min n (drop a xs)))
  where
    low : leb a (min (a + n) (length xs)) ≡ true
    low = le→leb a (min (a + n) (length xs)) (omega arith)

    high : leb (min (a + n) (length xs)) (length xs) ≡ true
    high = le→leb (min (a + n) (length xs)) (length xs) (omega arith)

    cut : min (a + n) (length xs) - a ≡ min n (length (drop a xs))
    cut = omega (arith, length-drop a xs)

-- What `restore_from_file` writes: the file from the place of the address on, in whole sectors.
abbrev pub restored_part : Bytes → ℕ → Bytes
restored_part file_data start_lba = pad_to_sector (drop (start_lba * 512) file_data)

abbrev pub restored_sectors : Bytes → ℕ → ℕ
restored_sectors file_data start_lba = (length file_data + 511) / 512 - start_lba

pub length-restored_part :
    (file_data : Bytes) (start_lba : ℕ)
    → start_lba * 512 < length file_data
    → length (restored_part file_data start_lba)
      ≡ restored_sectors file_data start_lba * sector_size
unfolding zeros_behind
length-restored_part file_data start_lba h =
    let g = drop (start_lba * 512) file_data in
    omega (
      arith,
      ap length (pad_to_sector-append g),
      length-append g (replicate (zeros_behind g) 0),
      length-replicate (zeros_behind g) (let z : ℕ = 0 in z),
      length-drop (start_lba * 512) file_data,
    )

pub batch-take :
    (file_data : Bytes) (start_lba w n : ℕ)
    → start_lba * 512 < length file_data
    → 1 ≤ n
    → w + n ≤ restored_sectors file_data start_lba
    → batch file_data (start_lba * 512 + w * 512) n
      ≡ ok (take (n * sector_size) (drop (w * sector_size) (restored_part file_data start_lba)))
unfolding batch zeros_behind
batch-take file_data start_lba w n h one fits =
    let g = drop (start_lba * 512) file_data in
    let here = drop (w * 512) g in
    let joined : drop (start_lba * 512 + w * 512) file_data ≡ here =
      sym (drop-drop (w * 512) (start_lba * 512) _ file_data refl) in
    let long : length g ≡ length file_data - start_lba * 512 =
      length-drop (start_lba * 512) file_data in
    let left : length here ≡ length g - w * 512 = length-drop (w * 512) g in
    let cut : length (take (n * 512) here) ≡ min (n * 512) (length here) =
      length-take (n * 512) here in
    rw
      (
        slice?-take (start_lba * 512 + w * 512) (n * 512) file_data (omega arith),
        joined,
        pad_to_sector-append g,
        drop-append (w * 512) g (replicate (zeros_behind g) 0) (omega arith),
        take-append_zeros (n * 512) (zeros_behind g) _ here (omega arith) refl,
      )
      (ap (λ m. ok (take (n * 512) here ++ replicate m 0)) (omega arith))
