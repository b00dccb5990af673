-- ===== src/Protocol/Commands/Laws.antt =====
-- What the commands send, and what they make of the answer, over a working link.
use fpga_emmc_card_reader.Base.{
  ℕ, ◌%◌, ◌<◌, [], ◌∷◌, ◌++◌, ◌≡◌, ◌≢◌, arith, true, false, if◌then◌else◌, not, ◌&&◌, ◌==◌, length,
  take_all, Bytes, byte_at, le32, ensure, Outcome, ok, err, bad_status, bad_width, Bool-cases, inl,
  inr,
}
use fpga_emmc_card_reader.Base.Bits.{bit_and-mask}
use fpga_emmc_card_reader.Transport.{Transport}
use fpga_emmc_card_reader.Transport.Stream.{
  IsStream, Run, Run-pure, Run-outcome, Run-bind, Run-then, Run-else,
}
use fpga_emmc_card_reader.Protocol.Ids.{
  cmd_read_sector, cmd_get_ext_csd, cmd_set_partition, cmd_write_ext_csd,
}
use fpga_emmc_card_reader.Protocol.Packet.{Response, command_packet}
use fpga_emmc_card_reader.Protocol.Packet.Laws.{
  response_packet, send_command_no_recv-sends, recv_response-response_packet, send_command-response,
  unequal,
}
use fpga_emmc_card_reader.Protocol.Commands.{
  command_ok, get_ext_csd, set_partition, write_ext_csd, set_bus_width, enable_cache,
}

-- The status byte decides.
abbrev pub checked : ℕ → Outcome (Unit {0})
checked status = if status == 0 then ok tt else err (bad_status status)

module _ {S : Type 0} {t : Transport S} (d : IsStream t) where
  Run-checked :
      (status : ℕ) (i o : Bytes)
      → Run d (ensure (status == 0) (bad_status status)) i o (checked status) i o
  Run-checked status i o = elim (Bool-cases (status == 0)) [
    | inl good ↦ rw good (Run-outcome d (ok tt) i o)
    | inr bad ↦ rw bad (Run-outcome d (err (bad_status status)) i o)
  ]

  -- A command sends one packet, takes one response, and fails exactly if the status is not OK.
  pub command_ok-checked :
      (cmd : ℕ) (payload : Bytes) (r : Response) (rest o : Bytes)
      → length r.payload < 65536
      → Run d
          (command_ok t cmd payload)
          (response_packet r.cmd_id r.status r.payload ++ rest)
          o
          (checked r.status)
          rest
          (o ++ command_packet cmd payload)
  unfolding command_ok
  command_ok-checked cmd payload r rest o fits =
      Run-bind d _ (send_command-response d cmd payload r rest o fits) (Run-checked r.status rest _)

  -- `set_partition` sends the number modulo 8, whatever it is given.
  pub set_partition-checked :
      (partition : ℕ) (r : Response) (rest o : Bytes)
      → length r.payload < 65536
      → Run d
          (set_partition t partition)
          (response_packet r.cmd_id r.status r.payload ++ rest)
          o
          (checked r.status)
          rest
          (o ++ command_packet cmd_set_partition (partition % 8 ∷ []))
  unfolding set_partition
  set_partition-checked partition r rest o fits =
      rw (bit_and-mask 3 partition)
        (command_ok-checked cmd_set_partition (partition % 8 ∷ []) r rest o fits)

  -- `get_ext_csd` takes the data packet and the completion packet, returns the 512 bytes, and
  -- leaves what follows in the link.
  pub get_ext_csd-drains :
      (ext_csd rest o : Bytes)
      → length ext_csd ≡ 512
      → Run d
          (get_ext_csd t)
          (response_packet cmd_read_sector 0 ext_csd
            ++ (response_packet cmd_get_ext_csd 0 [] ++ rest))
          o
          (ok ext_csd)
          rest
          (o ++ command_packet cmd_get_ext_csd [])
  unfolding get_ext_csd
  get_ext_csd-drains ext_csd rest o h =
      Run-bind d _ (send_command_no_recv-sends d cmd_get_ext_csd [] _ o) (
        Run-bind d _
          (recv_response-response_packet d [] cmd_read_sector 0 ext_csd _ _ (omega arith) tt
            (omega arith))
          (rw h (
            Run-bind d _
              (recv_response-response_packet d [] cmd_get_ext_csd 0 [] rest _ (omega arith) tt
                (omega arith))
              (rw (take_all 512 ext_csd (omega arith)) (Run-pure d ext_csd rest _)))))

  -- A bus width that the card has not is refused before anything is sent.
  pub set_bus_width-refused :
      (width : ℕ) (i o : Bytes)
      → width ≢ 1
      → width ≢ 4
      → Run d (set_bus_width t width) i o (err (bad_width width)) i o
  unfolding set_bus_width
  set_bus_width-refused width i o a b =
      rw (unequal a, unequal b) (Run-outcome d (err (bad_width width)) i o)

  enable_cache_cases :
      (ext_csd rest o : Bytes)
      → length ext_csd ≡ 512
      → let asked = o ++ command_packet cmd_get_ext_csd [] in
        let answer =
          response_packet cmd_read_sector 0 ext_csd
          ++ (response_packet cmd_get_ext_csd 0 []
              ++ (response_packet cmd_write_ext_csd 0 [] ++ rest)) in
        let unread = response_packet cmd_write_ext_csd 0 [] ++ rest in
        (le32 ext_csd 249 ≡ 0 → Run d (enable_cache t) answer o (ok false) unread asked)
        × (le32 ext_csd 249 ≢ 0
            → byte_at ext_csd 33 ≡ 1
            → Run d (enable_cache t) answer o (ok true) unread asked)
        × (le32 ext_csd 249 ≢ 0
            → byte_at ext_csd 33 ≢ 1
            → Run d
                (enable_cache t)
                answer
                o
                (ok true)
                rest
                (asked ++ command_packet cmd_write_ext_csd (33 ∷ 1 ∷ [])))
  unfolding enable_cache write_ext_csd
  enable_cache_cases ext_csd rest o h =
      let unread = response_packet cmd_write_ext_csd 0 [] ++ rest in
      let asked = o ++ command_packet cmd_get_ext_csd [] in
      let read = get_ext_csd-drains ext_csd unread o h in
      let reply : Response = record { cmd_id = cmd_write_ext_csd; status = 0; payload = [] } in
      (
        λ none_there.
            Run-bind d _ read
              (Run-then d _ (le32 ext_csd 249 == 0) (ground arith) (Run-pure d false unread asked)),
        λ there on. Run-bind d _ read (
            Run-else d _ (le32 ext_csd 249 == 0) (unequal there) (
              Run-then d _ (byte_at ext_csd 33 == 1) (ground arith)
                (Run-pure d true unread asked))),
        λ there off. Run-bind d _ read (
            Run-else d _ (le32 ext_csd 249 == 0) (unequal there) (
              Run-else d _ (byte_at ext_csd 33 == 1) (unequal off) (
                Run-bind d _
                  (command_ok-checked cmd_write_ext_csd (33 ∷ 1 ∷ []) reply rest asked
                    (omega arith))
                  (Run-pure d true rest _)))),
      )

  -- With every command carried out, `enable_cache` tells whether the card has a cache. It switches
  -- the cache on, by a write of 1 to byte 33, exactly if the card has one and byte 33 is not 1;
  -- else nothing is sent but the request for the register, and nothing more is taken.
  pub enable_cache-decides :
      (ext_csd rest o : Bytes)
      → length ext_csd ≡ 512
      → let has = not (le32 ext_csd 249 == 0) in
        let switches = has && not (byte_at ext_csd 33 == 1) in
        let asked = o ++ command_packet cmd_get_ext_csd [] in
        let reply = response_packet cmd_write_ext_csd 0 [] in
        Run d
          (enable_cache t)
          (response_packet cmd_read_sector 0 ext_csd
            ++ (response_packet cmd_get_ext_csd 0 [] ++ (reply ++ rest)))
          o
          (ok has)
          (if switches then rest else reply ++ rest)
          (if switches then asked ++ command_packet cmd_write_ext_csd (33 ∷ 1 ∷ []) else asked)
  enable_cache-decides ext_csd rest o h =
      let (lacks, on, off) = enable_cache_cases ext_csd rest o h in
      elim (Bool-cases (le32 ext_csd 249 == 0)) [
        | inl e ↦ rw e (lacks (ground arith))
        | inr e ↦ elim (Bool-cases (byte_at ext_csd 33 == 1)) [
          | inl e' ↦ rw (e, e') (on (ground arith) (ground arith))
          | inr e' ↦ rw (e, e') (off (ground arith) (ground arith))
        ]
      ]
