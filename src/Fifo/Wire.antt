-- ===== src/Fifo/Wire.antt =====
-- A USB link that plays a script of transfers, some of them empty, and takes every write whole. It
-- shows that the assumptions on a USB link can be met.
use fpga_emmc_card_reader.Base.{
  ℕ, suc, ◌≤◌, ◌<◌, [], ◌∷◌, ◌++◌, List, map, concat, ◌≡◌, refl, arith, inr, ◌⊎◌, length, take,
  take_all, Bytes, ok,
}
use fpga_emmc_card_reader.Fifo.{Usb, Transfer, arrived, usb_timeout, payload_of}
use fpga_emmc_card_reader.Fifo.Strip.{UsbPacket, on_wire, IsTransfer, payloads, payload_of-on_wire}
use fpga_emmc_card_reader.Fifo.Delivery.{IsDelivering}

-- The packets of the transfers to come, and what went out.
pub record Wire : Type 0 where
  pub transfers : List (List UsbPacket)
  pub written : Bytes

abbrev pub next_transfer : List (List UsbPacket) → Bytes → Transfer × Wire
next_transfer [] written = (usb_timeout, record { transfers = []; written = written })
next_transfer (packets ∷ transfers) written =
    (arrived (concat (map on_wire packets)), record { transfers = transfers; written = written })

unfoldable pub wire : Usb Wire
wire = record {
  read_bulk = λ size ms w. next_transfer w.transfers w.written;
  write_bulk = λ d w. (ok (length d), record w { written = w.written ++ d });
  write_control = λ request value w. (ok tt, w);
  polls = λ seconds ms w. length w.transfers;
}

-- The transfers hold these bytes, each in its packets.
abbrev pub Carry : List (List UsbPacket) → Bytes → Type 0
Carry [] i = i ≡ []
Carry (packets ∷ transfers) i =
    IsTransfer packets × ((i' : Bytes) × (i ≡ payloads packets ++ i') × Carry transfers i')

pub wire-read_bulk :
    (transfers : List (List UsbPacket)) (written : Bytes) (b : ℕ) (i o : Bytes)
    → Carry transfers (b ∷ i) × (written ≡ o)
    → (x i' : Bytes) × (w : Wire) × (payload_of (next_transfer transfers written).0 ≡ ok x)
      × ((next_transfer transfers written).1 ≡ w)
      × (b ∷ i ≡ x ++ i')
      × (Carry w.transfers i' × (w.written ≡ o))
      × (((0 < length x) × (length w.transfers ≤ length transfers))
          ⊎ (length w.transfers < length transfers))
wire-read_bulk [] written b i o h = cc
wire-read_bulk (packets ∷ transfers) written b i o h = (
  payloads packets,
  h.0.1.0,
  record { transfers = transfers; written = written },
  payload_of-on_wire packets h.0.0,
  refl,
  h.0.1.1,
  (h.0.1.2, h.1),
  inr (omega arith),
)

pub wire_sent :
    (b : ℕ) (d written o : Bytes)
    → written ≡ o
    → written ++ b ∷ d ≡ o ++ take (suc (length d)) (b ∷ d)
wire_sent b d written o h = rw (h, take_all (length d) d (omega arith)) refl

unfoldable pub wire-IsDelivering : IsDelivering wire
unfolding wire
wire-IsDelivering = record {
  At = λ w i o. Carry w.transfers i × (w.written ≡ o);
  quiet = λ w. length w.transfers;
  quiet-polls = λ w i o seconds ms h k. omega arith;
  read_bulk_lem = λ w b i o max_data ms h k. wire-read_bulk w.transfers w.written b i o h;
  write_bulk_lem = λ w b d i o h. (
    suc (length d),
    record w { written = w.written ++ b ∷ d },
    refl,
    omega arith,
    (h.0, wire_sent b d w.written o h.1),
  );
}
