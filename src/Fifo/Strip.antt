-- ===== src/Fifo/Strip.antt =====
-- The shape of a USB transfer, and what is left of it without the status bytes.
use fpga_emmc_card_reader.Base.{
  ℕ, zero, suc, ◌≤◌, [], ◌∷◌, ◌++◌, List, map, concat, ◌≡◌, refl, ap, ◌∙◌, arith, length,
  length-append, take_all, take-length_append, drop-length_append, drop_all, Bytes, ok, append-nil,
}
use fpga_emmc_card_reader.Fifo.{strip_status, payload_of, arrived}

pub record UsbPacket : Type 0 where
  pub modem_status : ℕ
  pub line_status : ℕ
  pub payload : Bytes

abbrev pub on_wire : UsbPacket → Bytes
on_wire p = p.modem_status ∷ p.line_status ∷ p.payload

-- All packets of a transfer are full but the last.
abbrev pub IsTransfer : List UsbPacket → Type 0
IsTransfer [] = Unit
IsTransfer (p ∷ []) = length p.payload ≤ 510
IsTransfer (p ∷ q ∷ packets) = (length p.payload ≡ 510) × IsTransfer (q ∷ packets)

abbrev pub payloads : List UsbPacket → Bytes
payloads packets = concat (map (λ (p : UsbPacket). p.payload) packets)

strip_status-packets :
    (fuel : ℕ) (packets : List UsbPacket)
    → IsTransfer packets
    → length (concat (map on_wire packets)) ≤ fuel
    → strip_status fuel (concat (map on_wire packets)) ≡ payloads packets
unfolding strip_status
strip_status-packets zero [] h k = refl
strip_status-packets (suc fuel) [] h k = refl
strip_status-packets zero (p ∷ packets) h k = absurd (omega arith)
strip_status-packets (suc fuel) (p ∷ []) h k =
    rw (append-nil p.payload, take_all 510 p.payload h, drop_all 510 p.payload h)
      (ap (λ (t : Bytes). p.payload ++ t) (nothing fuel) ∙ append-nil p.payload)
  where
    nothing : (n : ℕ) → strip_status n [] ≡ []
    nothing zero = refl
    nothing (suc n) = refl
strip_status-packets (suc fuel) (p ∷ q ∷ packets) h k =
    let rest = concat (map on_wire (q ∷ packets)) in
    rw (take-length_append 510 p.payload rest h.0, drop-length_append 510 p.payload rest h.0)
      (ap (λ (t : Bytes). p.payload ++ t)
        (strip_status-packets fuel (q ∷ packets) h.1
          (omega (arith, k, length-append p.payload rest))))

-- From a transfer whose packets are full but for the last, exactly the payloads are kept.
pub payload_of-on_wire :
    (packets : List UsbPacket)
    → IsTransfer packets
    → payload_of (arrived (concat (map on_wire packets))) ≡ ok (payloads packets)
unfolding payload_of
payload_of-on_wire packets h = ap ok (strip_status-packets _ packets h (omega arith))
