-- ===== src/Rpmb/Sessions.antt =====
-- The sessions: the card reader is set back to its user partition and its normal mode, whatever
-- became of the exchange.
use fpga_emmc_card_reader.Base.{
  ◌/◌, ◌+◌, ℕ, ◌%◌, ◌^◌, ◌<◌, [], ◌∷◌, ◌++◌, Bool, true, false, ◌≡◌, ◌≢◌, refl, ap, ◌∙◌, arith,
  length, Bytes, Outcome, ok, err, panic, Action,
}
use fpga_emmc_card_reader.Transport.{Transport}
use fpga_emmc_card_reader.Transport.Stream.{IsStream, Run, Run-pure, Run-bind}
use fpga_emmc_card_reader.Protocol.Ids.{
  cmd_set_rpmb_mode, cmd_set_partition, cmd_read_sector, sector_size,
}
use fpga_emmc_card_reader.Protocol.Packet.{Response, command_packet}
use fpga_emmc_card_reader.Protocol.Packet.Laws.{response_packet}
use fpga_emmc_card_reader.Protocol.Commands.{set_partition, set_rpmb_mode}
use fpga_emmc_card_reader.Protocol.Commands.Laws.{command_ok-checked, set_partition-checked}
use fpga_emmc_card_reader.Protocol.Sectors.{address, read_sectors}
use fpga_emmc_card_reader.Protocol.Sectors.Reading.{
  sector_packet, completion, read_sectors_single-sector,
}
use fpga_emmc_card_reader.Protocol.Sectors.Writing.{
  acks, packets_of, requests_of, write_sectors-stored,
}
use fpga_emmc_card_reader.Rpmb.{
  RpmbFrame, parse_frame, verify_mac, rpmb_test_key, clean_up, finally, exchange, session,
}

-- Success of a command that returns nothing.
abbrev pub done : ℕ → Bytes
done cmd = response_packet cmd 0 []

abbrev done_response : ℕ → Response
done_response cmd = record { cmd_id = cmd; status = 0; payload = [] }

keeps :
    {S A : Type 0} (cleanup : Action S (Unit {0})) (r : Outcome A) (s s' : S)
    → r ≢ panic
    → cleanup s ≡ (ok tt, s')
    → clean_up cleanup r s ≡ (r, s')
keeps cleanup (ok a) s s' h e = rw e
keeps cleanup (err x) s s' h e = rw e
keeps cleanup panic s s' h e = absurd (h refl)

module _ {S : Type 0} {t : Transport S} (d : IsStream t) where
  Run-finally :
      {A : Type 0} {body : Action S A} {cleanup : Action S (Unit {0})} {r : Outcome A}
      {i o i' o' i'' o'' : Bytes}
      → r ≢ panic
      → Run d body i o r i' o'
      → Run d cleanup i' o' (ok tt) i'' o''
      → Run d (finally body cleanup) i o r i'' o''
  unfolding finally
  Run-finally {cleanup = cleanup} {r = r} h first last = record {
    run = λ s a.
        let (s', e, a') = first.run s a in
        let (s'', e', a'') = last.run s' a' in
        (s'', ap (λ x. clean_up cleanup x.0 x.1) e ∙ keeps cleanup r s' s'' h e', a'');
  }

  Run-set_partition :
      (partition : ℕ) (i o : Bytes)
      → partition < 8
      → Run d
          (set_partition t partition)
          (done cmd_set_partition ++ i)
          o
          (ok tt)
          i
          (o ++ command_packet cmd_set_partition (partition ∷ []))
  Run-set_partition partition i o h =
      rw (small partition h) at
        (set_partition-checked d partition (done_response cmd_set_partition) i o (omega arith))
    where
      small : (partition : ℕ) → partition < 8 → partition % 8 ≡ partition
      small partition h = omega arith

  Run-set_rpmb_mode_on :
      (i o : Bytes)
      → Run d
          (set_rpmb_mode t true)
          (done cmd_set_rpmb_mode ++ i)
          o
          (ok tt)
          i
          (o ++ command_packet cmd_set_rpmb_mode (1 ∷ []))
  unfolding set_rpmb_mode
  Run-set_rpmb_mode_on i o =
      command_ok-checked d cmd_set_rpmb_mode (1 ∷ []) (done_response cmd_set_rpmb_mode) i o
        (omega arith)

  Run-set_rpmb_mode_off :
      (i o : Bytes)
      → Run d
          (set_rpmb_mode t false)
          (done cmd_set_rpmb_mode ++ i)
          o
          (ok tt)
          i
          (o ++ command_packet cmd_set_rpmb_mode (0 ∷ []))
  unfolding set_rpmb_mode
  Run-set_rpmb_mode_off i o =
      command_ok-checked d cmd_set_rpmb_mode (0 ∷ []) (done_response cmd_set_rpmb_mode) i o
        (omega arith)

  module _ (hmac : Bytes → Bytes → Bytes) where
    -- Whatever an exchange comes to, short of a panic, that is the session's result; and when the card
    -- reader carries out the four commands around it, the session ends by going back to partition 0
    -- and out of RPMB mode.
    pub session-leaves :
        (req : Bytes) (r : Outcome (RpmbFrame × Bool)) (i o o' rest : Bytes)
        → r ≢ panic
        → Run d
            (exchange hmac t req)
            i
            ((o ++ command_packet cmd_set_rpmb_mode (1 ∷ []))
              ++ command_packet cmd_set_partition (3 ∷ []))
            r
            (done cmd_set_partition ++ (done cmd_set_rpmb_mode ++ rest))
            o'
        → Run d
            (session hmac t req)
            (done cmd_set_rpmb_mode ++ (done cmd_set_partition ++ i))
            o
            r
            rest
            ((o' ++ command_packet cmd_set_partition (0 ∷ []))
              ++ command_packet cmd_set_rpmb_mode (0 ∷ []))
    unfolding session
    session-leaves req r i o o' rest h inner = Run-bind d _ (Run-set_rpmb_mode_on _ o) (
        Run-finally h
          (Run-bind d _ (Run-set_partition 3 i _ (omega arith))
            (Run-finally h inner (Run-set_partition 0 _ o' (omega arith))))
          (Run-set_rpmb_mode_off rest _))

    -- The exchange over a link on which the card reader acknowledges the request and then sends a
    -- sector.
    pub Run-exchange :
        (req response rest o : Bytes)
        → (length req + 511) / 512 < 2 ^ 32
        → length response ≡ sector_size
        → Run d
            (exchange hmac t req)
            (acks (requests_of 0 req) ++ (sector_packet response ++ (completion ++ rest)))
            o
            (ok (parse_frame response, verify_mac hmac response rpmb_test_key))
            rest
            ((o ++ packets_of (requests_of 0 req)) ++ command_packet cmd_read_sector (address 0 1))
    unfolding exchange read_sectors
    Run-exchange req response rest o small h =
        Run-bind d _ (write_sectors-stored d 0 req _ o (omega arith)).0 (
          Run-bind d _ (read_sectors_single-sector d 0 response rest _ (omega arith) h)
            (rw h (Run-pure d _ rest _)))
