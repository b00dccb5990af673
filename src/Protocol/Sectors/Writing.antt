-- ===== src/Protocol/Sectors/Writing.antt =====
-- `write_sectors` over a working link: the packets that it sends are the requests of a write.
use fpga_emmc_card_reader.Base.{
  ℕ, zero, suc, ◌+◌, ◌-◌, ◌*◌, ◌/◌, ◌%◌, ◌^◌, ◌≤◌, ◌<◌, min, List, [], ◌∷◌, ◌++◌, map, ◌≡◌, ◌≢◌,
  refl, ap, arith, ◌==◌, length, length-append, length-replicate, length-take, length-drop, All,
  take, drop, slice, replicate, drop-drop, concat, Bytes, Bool-cases, inl, inr, u16, u32, ok,
  append_assoc, append-nil,
}
use fpga_emmc_card_reader.Transport.{Transport}
use fpga_emmc_card_reader.Transport.Stream.{IsStream, Run, Run-pure, Run-bind, Run-then}
use fpga_emmc_card_reader.Protocol.Ids.{cmd_write_sector, sector_size}
use fpga_emmc_card_reader.Protocol.Packet.{command_packet}
use fpga_emmc_card_reader.Protocol.Packet.Laws.{response_packet, send_command-response}
use fpga_emmc_card_reader.Protocol.Sectors.{
  address, max_write_chunk, pad_to_sector, write_loop, write_sectors,
}
use fpga_emmc_card_reader.Protocol.Sectors.Requests.{
  WriteRequest, write_requests, Card, stored, apply_all, apply_all-write_requests,
}

-- The packet of a request, and the card reader's answer to it.
abbrev pub request_packet : WriteRequest → Bytes
request_packet r = command_packet cmd_write_sector (address r.lba r.count ++ r.chunk)

abbrev pub ack : Bytes
ack = response_packet cmd_write_sector 0 []

abbrev pub acks : List WriteRequest → Bytes
acks [] = []
acks (r ∷ rs) = ack ++ acks rs

abbrev pub packets_of : List WriteRequest → Bytes
packets_of rs = concat (map request_packet rs)

-- The sectors that some bytes take up, and the bytes with zeros up to the end of the last of them.
abbrev pub sectors_to_write : Bytes → ℕ
sectors_to_write data' = (length data' + 511) / 512

abbrev pub filled : Bytes → Bytes
filled data' = data' ++ replicate (sectors_to_write data' * 512 - length data') 0

abbrev pub requests_of : ℕ → Bytes → List WriteRequest
requests_of lba data' =
    write_requests (sectors_to_write data') lba (sectors_to_write data') (filled data')

pad_to_sector-eq-filled : (data' : Bytes) → pad_to_sector data' ≡ filled data'
unfolding pad_to_sector
pad_to_sector-eq-filled data' = elim (Bool-cases (length data' % sector_size == 0)) [
  | inl e ↦
      let whole : length data' % 512 ≡ 0 = ground arith in
      let none_left : sectors_to_write data' * 512 - length data' ≡ 0 = omega arith in
      rw (e, none_left, append-nil data') refl
  | inr e ↦
      let part : length data' % 512 ≢ 0 = ground arith in
      let left : sector_size - length data' % sector_size
          ≡ sectors_to_write data' * 512 - length data' =
        omega arith in
      rw (e, left) refl
]

length-filled : (data' : Bytes) → length (filled data') ≡ sectors_to_write data' * sector_size
length-filled data' = omega (
  arith,
  length-append data' (replicate (sectors_to_write data' * 512 - length data') 0),
  length-replicate (sectors_to_write data' * 512 - length data') (let z : ℕ = 0 in z),
)

module _ {S : Type 0} {t : Transport S} (d : IsStream t) where
  write_loop-requests :
      (fuel lba offset remaining : ℕ) (data' rest o : Bytes)
      → remaining ≤ fuel
      → lba + remaining < 2 ^ 32
      → let reqs = write_requests fuel lba remaining (drop offset data') in
        Run d
          (write_loop t fuel data' lba offset remaining)
          (acks reqs ++ rest)
          o
          (ok tt)
          rest
          (o ++ packets_of reqs)
  unfolding write_loop write_requests
  write_loop-requests zero lba offset remaining data' rest o h fits =
      rw append-nil (Run-then d _ (remaining == 0) (ground arith) (Run-pure d tt rest o))
  write_loop-requests (suc fuel) lba offset remaining data' rest o h fits =
      let n = min remaining max_write_chunk in
      let chunk = take (n * sector_size) (drop offset data') in
      let later = drop (offset + n * sector_size) data' in
      let reqs = write_requests fuel (lba + n) (remaining - n) later in
      let small : u16 n ≡ n = omega arith in
      let cut : slice offset (offset + n * sector_size) data' ≡ chunk =
        ap (λ k. take k (drop offset data')) (omega arith) in
      let moved : u32 (lba + n) ≡ lba + n = omega arith in
      let joined : drop (n * sector_size) (drop offset data') ≡ later =
        drop-drop (n * sector_size) offset (offset + n * sector_size) data' refl in
      let packet = command_packet cmd_write_sector (address lba n ++ chunk) in
      elim (Bool-cases (remaining == 0)) [
        | inl done ↦ rw (done, append-nil) (Run-pure d tt rest o)
        | inr more ↦
            rw (more, small, cut, moved, joined, ← append_assoc o packet (packets_of reqs))
              (Run-bind d _
                (send_command-response d cmd_write_sector (address lba n ++ chunk)
                  (record { cmd_id = cmd_write_sector; status = 0; payload = [] })
                  (acks reqs ++ rest) o (omega arith))
                (write_loop-requests fuel (lba + n) (offset + n * sector_size) (remaining - n) data'
                  rest (o ++ packet) (ground arith) (omega arith)))
      ]

-- A request as the card reader takes it: one to sixteen whole sectors.
abbrev pub IsWhole : WriteRequest → Type 0
IsWhole r = (1 ≤ r.count) × (r.count ≤ max_write_chunk) × (length r.chunk ≡ r.count * sector_size)

write_requests-IsWhole :
    (fuel lba remaining : ℕ) (data' : Bytes)
    → remaining * sector_size ≤ length data'
    → All IsWhole (write_requests fuel lba remaining data')
unfolding write_requests
write_requests-IsWhole zero lba remaining data' h = tt
write_requests-IsWhole (suc fuel) lba remaining data' h =
    let n = min remaining max_write_chunk in
    elim (Bool-cases (remaining == 0)) [
      | inl done ↦ rw done tt
      | inr more ↦ rw more (
        (ground arith, omega arith, omega (arith, length-take (n * sector_size) data')),
        write_requests-IsWhole fuel (lba + n) (remaining - n) (drop (n * sector_size) data')
            (omega (arith, length-drop (n * sector_size) data')),
      )
    ]

-- A write whose sectors have addresses below 2^32, over a working link on which the card reader
-- answers every packet with success, returns after sending the packets of `requests_of`. Each
-- carries one to sixteen whole sectors, and storing them in turn leaves the card with the data from
-- the address on, with zeros behind them up to the end of their last sector, and with all other
-- sectors as they were.
pub write_sectors-stored :
    {S : Type 0} {t : Transport S} (d : IsStream t) (lba : ℕ) (data' rest o : Bytes)
    → lba + (length data' + 511) / 512 < 2 ^ 32
    → Run d
        (write_sectors t lba data')
        (acks (requests_of lba data') ++ rest)
        o
        (ok tt)
        rest
        (o ++ packets_of (requests_of lba data'))
      × All IsWhole (requests_of lba data')
      × ((card : Card) (a : ℕ)
          → apply_all (requests_of lba data') card a
            ≡ stored lba ((length data' + 511) / 512) (filled data') card a)
unfolding write_sectors
write_sectors-stored d lba data' rest o fits =
    let total = sectors_to_write data' in
    let size = length-filled data' in
    let count : length (filled data') / sector_size ≡ total = omega (arith, size) in
    (
      rw (pad_to_sector-eq-filled data', count)
          (write_loop-requests d total lba 0 total (filled data') rest o (omega arith) fits),
      write_requests-IsWhole total lba total (filled data') (omega (arith, size)),
      λ card a.
          apply_all-write_requests total lba total (filled data') card a (omega (arith, size)),
    )
