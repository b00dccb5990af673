-- ===== src/Fifo/Delivery.antt =====
-- What the FIFO relies on in the USB link: transfers carry the bytes of the card reader in order,
-- the transfers without data in a run are too few to
-- reach the deadline of two seconds, and writes take some bytes each.
use fpga_emmc_card_reader.Base.{ℕ, ◌≤◌, ◌<◌, ◌∷◌, ◌++◌, ◌≡◌, ◌⊎◌, length, take, Bytes, ok}
use fpga_emmc_card_reader.Fifo.{Usb, payload_of, usb_read_size}

pub record IsDelivering {U : Type 0} (usb : Usb U) : Type 1 where
  -- In this state of the bus these bytes will come, in the run at hand, and those have gone out.
  pub At : U → Bytes → Bytes → Type 0
  -- how many transfers without data may still come in the run while bytes are awaited
  pub quiet : U → ℕ
  pub quiet-polls :
      (u : U) (i o : Bytes) (seconds ms : ℕ)
      → At u i o
      → 2 ≤ seconds
      → quiet u ≤ usb.polls seconds ms u
  -- A poll while a byte is awaited: what it brings is the start of what is to come.
  pub read_bulk_lem :
      (u : U) (b : ℕ) (i o : Bytes) (max_data ms : ℕ)
      → At u (b ∷ i) o
      → 64 ≤ max_data
      → (x i' : Bytes) × (u' : U) × (payload_of (usb.read_bulk (usb_read_size max_data) ms u).0
          ≡ ok x)
        × ((usb.read_bulk (usb_read_size max_data) ms u).1 ≡ u')
        × (b ∷ i ≡ x ++ i')
        × At u' i' o
        × (((0 < length x) × (quiet u' ≤ quiet u)) ⊎ (quiet u' < quiet u))
  pub write_bulk_lem :
      (u : U) (b : ℕ) (d i o : Bytes)
      → At u i o
      → (n : ℕ) × (u' : U) × (usb.write_bulk (b ∷ d) u ≡ (ok n, u'))
        × (0 < n)
        × At u' i (o ++ take n (b ∷ d))
