-- ===== src/App/Restoring/Stored.antt =====
-- `restore_from_file` over a working link: the pipelined batches are the requests of one write, and
-- each is acknowledged once.
use fpga_emmc_card_reader.Base.{
  ℕ, zero, suc, ◌+◌, ◌-◌, ◌*◌, ◌/◌, ◌^◌, ◌≤◌, ◌<◌, min, [], ◌++◌, List, ◌≡◌, refl, sym, ap, ◌∙◌,
  arith, Bool, true, false, ltb, ltb→lt, leb, ◌==◌, if◌then◌else◌, length, take, drop, drop-drop,
  Bytes, u16, u32, ok, Action, Error, Option, none, some, Bool-cases, inl, inr, append_assoc,
  append-nil, Message, length-take, length-drop,
}
use fpga_emmc_card_reader.Transport.Stream.{
  IsStream, Run, Run-pure, Run-bind, Run-outcome, Run-respell,
}
use fpga_emmc_card_reader.Protocol.Ids.{cmd_write_sector, sector_size}
use fpga_emmc_card_reader.Protocol.Packet.{command_packet}
use fpga_emmc_card_reader.Protocol.Packet.Laws.{
  send_command_no_recv-sends, recv_response-response_packet,
}
use fpga_emmc_card_reader.Protocol.Sectors.{
  address, send_write_command, recv_write_response, max_write_chunk,
}
use fpga_emmc_card_reader.Protocol.Sectors.Requests.{
  WriteRequest, write_requests, Card, stored, apply_all, apply_all-write_requests,
}
use fpga_emmc_card_reader.Protocol.Sectors.Writing.{ack, acks, packets_of}
use fpga_emmc_card_reader.Protocol.Commands.{enable_cache}
use fpga_emmc_card_reader.App.Message.{WorkerMessage}
use fpga_emmc_card_reader.App.Task.{
  Task, Desk, attempt, send, resume, unless_cancelled, connect, on_connection, whatever,
}
use fpga_emmc_card_reader.App.Restoring.{
  restore_loop, acknowledged, confirmed, chunk_sectors, restored, restore_from_file,
}
use fpga_emmc_card_reader.App.Restoring.Batches.{
  batch-take, length-restored_part, restored_part, restored_sectors,
}

module _ {S : Type 0} (desk : Desk S) (d : IsStream desk.link) where
  -- From where `i` is to come and `o` has gone out, `m` gets to `k`, with `i'` still to come and `o'`
  -- gone out. Messages may be sent on the way.
  pub record Reaches (m k : Task S Unit) (i o i' o' : Bytes) : Type 0 where
    pub reached :
        (s : S)
        → d.At s i o
        → (s' : S) × ((m s).outcome ≡ (k s').outcome) × ((m s).after ≡ (k s').after) × d.At s' i' o'

  Reaches-here : (k : Task S Unit) (i o : Bytes) → Reaches k k i o i o
  Reaches-here k i o = record { reached = λ s h. (s, refl, refl, h) }

  Reaches-send :
      (x : WorkerMessage) (m k : Task S Unit) {i o i' o' : Bytes}
      → Reaches m k i o i' o'
      → Reaches (send x m) k i o i' o'
  unfolding send
  Reaches-send x m k h = record { reached = h.reached }

  Reaches-attempt :
      {A : Type 0} (m : Action S A) (failed : Error → Task S Unit) (rest : A → Task S Unit)
      (k : Task S Unit) {a : A} {i o i' o' i'' o'' : Bytes}
      → Run d m i o (ok a) i' o'
      → Reaches (rest a) k i' o' i'' o''
      → Reaches (attempt m failed rest) k i o i'' o''
  unfolding attempt
  Reaches-attempt m failed rest k first later = record {
    reached = λ s h.
        let (s', e, h') = first.run s h in
        let (s'', p, q, h'') = later.reached s' h' in
        (
          s'',
          ap (λ r. (resume r.0 failed rest r.1).outcome) e ∙ p,
          ap (λ r. (resume r.0 failed rest r.1).after) e ∙ q,
          h'',
        );
  }

  -- While the user does not cancel.
  Reaches-unless_cancelled :
      (stopped pass k : Task S Unit) {i o i' o' : Bytes}
      → ((s : S) → desk.is_cancelled s ≡ (false, s))
      → Reaches pass k i o i' o'
      → Reaches (unless_cancelled desk stopped pass) k i o i' o'
  unfolding unless_cancelled
  Reaches-unless_cancelled stopped pass k calm h = record {
    reached = λ s a. rw (calm s) (h.reached s a);
  }

  Reaches-if :
      (b : Bool) (m n k : Task S Unit) {i o i' o' : Bytes}
      → b ≡ true
      → Reaches m k i o i' o'
      → Reaches (if b then m else n) k i o i' o'
  Reaches-if true m n k e h = h
  Reaches-if false m n k e h = cc

  Reaches-else :
      (b : Bool) (m n k : Task S Unit) {i o i' o' : Bytes}
      → b ≡ false
      → Reaches n k i o i' o'
      → Reaches (if b then m else n) k i o i' o'
  Reaches-else true m n k e h = cc
  Reaches-else false m n k e h = h

  recv_write_response-ack :
      (lba : ℕ) (rest o : Bytes)
      → Run d (recv_write_response desk.link lba) (ack ++ rest) o (ok tt) rest o
  unfolding recv_write_response
  recv_write_response-ack lba rest o =
      Run-bind d _
        (recv_response-response_packet d [] cmd_write_sector 0 [] rest o (omega arith) tt
          (omega arith))
        (Run-pure d tt rest o)

  send_write_command-sends :
      (lba : ℕ) (chunk i o : Bytes)
      → Run d (send_write_command desk.link lba chunk) i o (ok (length chunk / sector_size)) i (
          o
          ++ command_packet cmd_write_sector
              (address lba (u16 (length chunk / sector_size)) ++ chunk))
  unfolding send_write_command
  send_write_command-sends lba chunk i o =
      Run-bind d _ (send_command_no_recv-sends d cmd_write_sector _ i o) (Run-pure d _ i _)

  -- What is to come for the batch that is out.
  abbrev awaited : Option ℕ → Bytes
  awaited none = []
  awaited (some _) = ack

  Reaches-acknowledged :
      (how : Message) (pending : Option ℕ) (rest k : Task S Unit) {i o i' o' : Bytes}
      → Reaches rest k i o i' o'
      → Reaches (acknowledged desk how pending rest) k (awaited pending ++ i) o i' o'
  unfolding acknowledged
  Reaches-acknowledged how none rest k h = h
  Reaches-acknowledged how (some plba) rest k {i = i} {o = o} h =
      Reaches-attempt _ _ _ k (recv_write_response-ack plba i o) h

  Reaches-confirmed :
      (pending : Option ℕ) (written sector_count : ℕ) (rest k : Task S Unit) {i o i' o' : Bytes}
      → Reaches rest k i o i' o'
      → Reaches (confirmed desk pending written sector_count rest) k i o i' o'
  unfolding confirmed
  Reaches-confirmed none written sector_count rest k h = h
  Reaches-confirmed (some _) written sector_count rest k h = Reaches-send _ rest k h

  module _ (calm : (s : S) → desk.is_cancelled s ≡ (false, s)) (file_data : Bytes) (start_lba : ℕ)
      (inside : start_lba * 512 < length file_data) where
    abbrev part : Bytes
    part = restored_part file_data start_lba

    abbrev total : ℕ
    total = restored_sectors file_data start_lba

    restore_loop-requests :
        (fuel written : ℕ) (pending : Option ℕ) (rest : Task S Unit) (later o : Bytes)
        → total - written ≤ fuel
        → written ≤ total
        → start_lba + total < 2 ^ 32
        → let reqs =
            write_requests fuel
              (start_lba + written)
              (total - written)
              (drop (written * sector_size) part) in
          Reaches
            (restore_loop desk fuel start_lba total file_data written pending rest)
            rest
            (awaited pending ++ (acks reqs ++ later))
            o
            later
            (o ++ packets_of reqs)
    unfolding restore_loop write_requests
    restore_loop-requests zero written pending rest later o h w fits =
        rw (append-nil, full) (Reaches-acknowledged _ pending rest rest (Reaches-here rest later o))
      where
        full : ltb written total ≡ false
        full = ground (arith, h)
    restore_loop-requests (suc fuel) written pending rest later o h w fits =
        let n = min (total - written) max_write_chunk in
        let lba = start_lba + written in
        let chunk = take (n * sector_size) (drop (written * sector_size) part) in
        let reqs =
          write_requests fuel (lba + n) (total - written - n)
            (drop (n * sector_size) (drop (written * sector_size) part)) in
        let here : min chunk_sectors (total - written) ≡ n = omega arith in
        let addressed : u32 (start_lba + u32 written) ≡ lba = omega arith in
        let moved : start_lba + (written + n) ≡ lba + n = omega arith in
        let left : total - (written + n) ≡ total - written - n = omega arith in
        let joined : drop ((written + n) * sector_size) part
            ≡ drop (n * sector_size) (drop (written * sector_size) part) =
          sym (drop-drop (n * sector_size) (written * sector_size) _ part (omega arith)) in
        let packet = command_packet cmd_write_sector (address lba n ++ chunk) in
        elim (Bool-cases (ltb written total)) [
          | inl e ↦
              let l : written < total = ltb→lt _ _ e in
              let more : (total - written == 0) ≡ false = ground (arith, l) in
              let size : length chunk ≡ n * sector_size = omega (
                arith,
                length-take (n * sector_size) (drop (written * sector_size) part),
                length-drop (written * sector_size) part,
                length-restored_part file_data start_lba inside,
              ) in
              let counted : u16 (length chunk / sector_size) ≡ n = omega (arith, size) in
              let cut =
                batch-take file_data start_lba written n inside (omega arith) (omega arith) in
              rw (e, more, here, addressed, ← append_assoc o packet (packets_of reqs))
                (Reaches-unless_cancelled _ _ rest calm (
                  Reaches-attempt _ _ _ rest (Run-respell d refl (sym cut) (Run-outcome d _ _ o)) (
                    Reaches-acknowledged _ pending _ rest (
                      Reaches-confirmed pending written total _ rest (
                        Reaches-attempt _ _ _ rest
                          (rw counted at
                            (send_write_command-sends lba chunk (ack ++ (acks reqs ++ later)) o))
                          (rw (moved, left, joined) at
                            (restore_loop-requests fuel (written + n) (some lba) rest later
                              (o ++ packet) (omega arith) (omega arith) fits)))))))
          | inr e ↦
              let none_left : (total - written == 0) ≡ true = ground (arith, e, w) in
              rw (e, none_left, append-nil)
                (Reaches-acknowledged _ pending rest rest (Reaches-here rest later o))
        ]

-- The requests of a restore.
abbrev pub restore_requests : Bytes → ℕ → List WriteRequest
restore_requests file_data start_lba =
    write_requests (restored_sectors file_data start_lba) start_lba
      (restored_sectors file_data start_lba) (restored_part file_data start_lba)

-- The machine opens the port and the file, and the user does not cancel.
pub record IsReady {S : Type 0} (desk : Desk S) (d : IsStream desk.link) (port : Bytes) (baud : ℕ)
    (input_path file_data : Bytes) : Type 0 where
  pub opens : (i o : Bytes) → Run d (connect desk port baud) i o (ok tt) i o
  pub measures : (i o : Bytes) → Run d (desk.file_len input_path) i o (ok (length file_data)) i o
  pub gives : (i o : Bytes) → Run d (desk.read_file input_path) i o (ok file_data) i o
  pub calm : (s : S) → desk.is_cancelled s ≡ (false, s)

-- A restore from a file that reaches beyond the address, to sectors below 2^32, on a machine that is
-- ready and over a working link: where the cache is switched on, and the card reader then answers
-- every packet with success, the thread sends the packets of one write and takes one answer to each,
-- and goes on behind the last one. Storing the packets in turn leaves the card with the file from the
-- place of the address on, in whole sectors, and all other sectors as they were.
pub restore_from_file-stored :
    {S : Type 0} (desk : Desk S) (d : IsStream desk.link) (port : Bytes) (baud : ℕ)
    (input_path file_data : Bytes) (start_lba : ℕ) (verify has_cache : Bool) (i o later o' : Bytes)
    → IsReady desk d port baud input_path file_data
    → start_lba * 512 < length file_data
    → start_lba + restored_sectors file_data start_lba < 2 ^ 32
    → Run d
        (enable_cache desk.link)
        i
        o
        (ok has_cache)
        (acks (restore_requests file_data start_lba) ++ later)
        o'
    → Reaches desk d
        (restore_from_file desk port baud start_lba input_path verify)
        (restored desk start_lba (restored_sectors file_data start_lba) input_path verify)
        i
        o
        later
        (o' ++ packets_of (restore_requests file_data start_lba))
      × ((card : Card) (a : ℕ)
          → apply_all (restore_requests file_data start_lba) card a
            ≡ stored start_lba
                (restored_sectors file_data start_lba)
                (restored_part file_data start_lba)
                card
                a)
unfolding restore_from_file on_connection whatever
restore_from_file-stored desk d port baud input_path file_data start_lba verify has_cache i o later
      o' ready inside fits cached =
    let total = restored_sectors file_data start_lba in
    let after = restored desk start_lba total input_path verify in
    let written =
      restore_loop-requests desk d ready.calm file_data start_lba inside total 0 none after later o'
        (omega arith) (omega arith) fits in
    let plus : start_lba + 0 ≡ start_lba = omega arith in
    let minus : total - 0 ≡ total = omega arith in
    let there : leb (length file_data) (start_lba * 512) ≡ false = ground (arith, inside) in
    (
      Reaches-attempt desk d _ _ _ after (ready.measures i o) (
          Reaches-else desk d _ _ _ after there (
            Reaches-attempt desk d _ _ _ after (ready.gives i o) (
              Reaches-attempt desk d _ _ _ after (ready.opens i o)
                (Reaches-attempt desk d _ _ _ after cached (rw (plus, minus) at written))))),
      λ card a. apply_all-write_requests total start_lba total _ card a (omega arith),
    )
