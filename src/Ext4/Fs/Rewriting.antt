-- ===== src/Ext4/Fs/Rewriting.antt =====
-- An inode that was written is the one that is read.
use fpga_emmc_card_reader.Base.{
  ℕ, zero, suc, ◌*◌, ◌<◌, [], ◌∷◌, List, ◌≡◌, arith, none, some, length, get_elem?, Bytes, ok,
}
use fpga_emmc_card_reader.Ext4.Superblock.{Superblock}
use fpga_emmc_card_reader.Ext4.Fs.{Host}

-- In a state of which `At` says what the sectors hold, reads give them, and after a write of whole
-- sectors a read of the same sectors gives what was written.
pub record IsMemory {S : Type 0} (host : Host S) : Type 1 where
  pub At : S → (ℕ → ℕ → Bytes) → Type 0
  pub reads :
      (lba n : ℕ) (s : S) (sectors : ℕ → ℕ → Bytes)
      → At s sectors
      → (s' : S) × (host.read_sectors lba n s ≡ (ok (sectors lba n), s'))
        × At s' sectors
        × (length (sectors lba n) ≡ n * 512)
  pub writes :
      (lba n : ℕ) (d : Bytes) (s : S) (sectors : ℕ → ℕ → Bytes)
      → At s sectors
      → length d ≡ n * 512
      → (s' : S) × (sectors' : ℕ → ℕ → Bytes) × (host.write_sectors lba d s ≡ (ok tt, s'))
        × At s' sectors'
        × (sectors' lba n ≡ d)

get_elem?-inside :
    {A : Type 0} (xs : List A) (i : ℕ) {a : A} → get_elem? xs i ≡ some a → i < length xs
get_elem?-inside [] i h = absurd (none_some h)
  where
    none_some : {A : Type 0} {a : A} → none ≡ some a → ⊥
    none_some e = cc
get_elem?-inside (x ∷ xs) zero h = omega arith
get_elem?-inside (x ∷ xs) (suc i) h = omega (arith, get_elem?-inside xs i h)
