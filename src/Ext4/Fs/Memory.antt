-- ===== src/Ext4/Fs/Memory.antt =====
-- A card in memory: it shows that what is assumed of the sectors can hold.
use fpga_emmc_card_reader.Base.{
  ℕ, zero, suc, ◌+◌, ◌-◌, ◌*◌, ◌/◌, ◌≤◌, ◌<◌, [], ◌++◌, ◌≡◌, refl, sym, ap, ◌∙◌, arith, true,
  Bool-cases, inl, inr, subst, ◌&&◌, if◌then◌else◌, leb, ltb, length, length-append, length-take,
  length-drop, take, drop, take-append-drop, drop-drop, drop_all, Bytes, ok,
}
use fpga_emmc_card_reader.Ext4.Fs.{Host}
use fpga_emmc_card_reader.Ext4.Fs.Reading.{IsServing}
use fpga_emmc_card_reader.Ext4.Fs.Rewriting.{IsMemory}

abbrev pub Memory : Type 0
Memory = ℕ → Bytes

unfoldable pub sectors_at : Memory → ℕ → ℕ → Bytes
sectors_at m lba zero = []
sectors_at m lba (suc n) = m lba ++ sectors_at m (lba + 1) n

unfoldable pub stored_at : Memory → ℕ → Bytes → Memory
stored_at m lba d i =
    if leb lba i && ltb i (lba + length d / 512) then take 512 (drop ((i - lba) * 512) d) else m i

unfoldable pub memory : Host Memory
memory = record {
  read_sectors = λ lba n m. (ok (sectors_at m lba n), m);
  write_sectors = λ lba d m. (ok tt, stored_at m lba d);
  now = λ m. (ok 0, m);
  from_utf8_lossy = λ name. name;
  name_of = λ name. "";
  stack = 5;
}

-- Every sector has 512 bytes.
abbrev pub IsWhole : Memory → Type 0
IsWhole m = (i : ℕ) → length (m i) ≡ 512

pub sectors_at-length : (m : Memory) (lba n : ℕ) → IsWhole m → length (sectors_at m lba n) ≡ n * 512
unfolding sectors_at
sectors_at-length m lba zero h = refl
sectors_at-length m lba (suc n) h = omega (
  arith,
  length-append (m lba) (sectors_at m (lba + 1) n),
  h lba,
  sectors_at-length m (lba + 1) n h,
)

pub stored_at-IsWhole :
    (m : Memory) (lba n : ℕ) (d : Bytes)
    → length d ≡ n * 512
    → IsWhole m
    → IsWhole (stored_at m lba d)
unfolding stored_at
stored_at-IsWhole m lba n d e h i = elim (Bool-cases (leb lba i && ltb i (lba + length d / 512))) [
  | inl o ↦
      let count : length d / 512 ≡ n = omega arith in
      let (low, high) =
        within lba i n (subst (λ k. (leb lba i && ltb i (lba + k)) ≡ true) count o) in
      rw o
        (omega (arith, length-take 512 (drop ((i - lba) * 512) d), length-drop ((i - lba) * 512) d))
  | inr o ↦ rw o (h i)
]
  where
    within : (lba i n : ℕ) → (leb lba i && ltb i (lba + n)) ≡ true → (lba ≤ i) × (i < lba + n)
    within lba i n o = (ground arith, ground arith)

-- The sectors that were written, from the `k`-th on.
pub sectors_at-stored_from :
    (m : Memory) (lba k n total : ℕ) (d : Bytes)
    → length d ≡ total * 512
    → k + n ≡ total
    → sectors_at (stored_at m lba d) (lba + k) n ≡ drop (k * 512) d
unfolding sectors_at stored_at
sectors_at-stored_from m lba k zero total d e h = sym (drop_all (k * 512) d (omega arith))
sectors_at-stored_from m lba k (suc n) total d e h =
    let here : (leb lba (lba + k) && ltb (lba + k) (lba + length d / 512)) ≡ true = ground arith in
    let at : (lba + k - lba) * 512 ≡ k * 512 = omega arith in
    let later = sectors_at-stored_from m lba (k + 1) n total d e (omega arith) in
    let next : lba + (k + 1) ≡ lba + k + 1 = omega arith in
    rw (here, at)
      (ap (λ w. take 512 (drop (k * 512) d) ++ w)
          (ap (λ i. sectors_at (stored_at m lba d) i n) (sym next)
            ∙ (later ∙ sym (drop-drop 512 (k * 512) ((k + 1) * 512) d (omega arith))))
        ∙ take-append-drop 512 (drop (k * 512) d))

unfoldable pub memory-IsMemory : IsMemory memory
unfolding memory
memory-IsMemory = record {
  At = λ m sectors. IsWhole m × ((lba n : ℕ) → sectors lba n ≡ sectors_at m lba n);
  reads = λ lba n m sectors h. (
    m,
    ap (λ (w : Bytes). (ok w, m)) (sym (h.1 lba n)),
    h,
    ap length (h.1 lba n) ∙ sectors_at-length m lba n h.0,
  );
  writes = λ lba n d m sectors h e. (
    stored_at m lba d,
    sectors_at (stored_at m lba d),
    refl,
    (stored_at-IsWhole m lba n d e h.0, λ lba n. refl),
    ap (λ i. sectors_at (stored_at m lba d) i n) (plus_zero lba)
        ∙ sectors_at-stored_from m lba 0 n n d e (omega arith),
  );
}
  where
    plus_zero : (i : ℕ) → i ≡ i + 0
    plus_zero i = omega arith

unfoldable pub memory-IsServing : (m : Memory) → IsServing memory (sectors_at m)
unfolding memory
memory-IsServing m = record { At = λ m'. m' ≡ m; reads = λ lba n s h. (s, rw h refl, h) }
