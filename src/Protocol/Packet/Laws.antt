-- ===== src/Protocol/Packet/Laws.antt =====
-- Packets over a working link: what is received of a response, whole, damaged or behind noise.
use fpga_emmc_card_reader.Base.{
  ℕ, zero, suc, ◌+◌, ◌*◌, ◌%◌, ◌/◌, ◌^◌, ◌≤◌, ◌<◌, bit_or, [], ◌∷◌, ◌++◌, ◌≡◌, ◌≢◌, refl, sym, ap,
  ◌∙◌, arith, false, if◌then◌else◌, ◌==◌, ==-self, ltb, lt→ltb, length, length-append, All, IsBytes,
  Bytes, byte_at, to_be16, be16, take, drop, take-length_append, u16, pure, Outcome, ok, err,
  sync_lost, crc_mismatch, append_assoc, subst,
}
use fpga_emmc_card_reader.Base.Bits.{bit_or-fields}
use fpga_emmc_card_reader.Crc8.{crc8}
use fpga_emmc_card_reader.Crc8.Laws.{crc8_detects_byte, crc8-append_self}
use fpga_emmc_card_reader.Transport.{Transport}
use fpga_emmc_card_reader.Transport.Stream.{
  IsStream, Run, Run-pure, Run-outcome, Run-read, Run-read_exact, Run-write_all, Run-flush,
  Run-bind, Run-bind_err, Run-then, Run-else, Run-ensure,
}
use fpga_emmc_card_reader.Protocol.Ids.{header_tx, header_rx}
use fpga_emmc_card_reader.Protocol.Packet.{
  Response, command_packet, send_command_no_recv, wait_byte, wait_header, recv_response,
  send_command,
}

-- What the card reader sends: the packet of the README, with a given last byte.
abbrev pub response_with : ℕ → ℕ → ℕ → Bytes → Bytes
response_with crc cmd status payload =
    header_rx ∷ ((cmd ∷ status ∷ to_be16 (length payload)) ++ (payload ++ crc ∷ []))

abbrev pub response_crc : ℕ → ℕ → Bytes → ℕ
response_crc cmd status payload = crc8 (cmd ∷ status ∷ (to_be16 (length payload) ++ payload))

abbrev pub response_packet : ℕ → ℕ → Bytes → Bytes
response_packet cmd status payload =
    response_with (response_crc cmd status payload) cmd status payload

pub unequal : {a b : ℕ} → a ≢ b → (a == b) ≡ false
unequal h = ground arith

module _ {S : Type 0} {t : Transport S} (d : IsStream t) where
  wait_header-found :
      (left : ℕ) (rest o : Bytes) → Run d (wait_header t left) (header_rx ∷ rest) o (ok tt) rest o
  unfolding wait_header wait_byte
  wait_header-found zero rest o = Run-bind d _ (Run-read d header_rx rest o) (Run-pure d tt rest o)
  wait_header-found (suc left) rest o =
      Run-bind d _ (Run-read d header_rx rest o) (Run-pure d tt rest o)

  -- Up to the allowed number of other bytes are skipped.
  wait_header-noise :
      (noise : Bytes) (left : ℕ) (rest o : Bytes)
      → length noise ≤ left
      → All (λ b. b ≢ header_rx) noise
      → Run d (wait_header t left) (noise ++ header_rx ∷ rest) o (ok tt) rest o
  unfolding wait_header wait_byte
  wait_header-noise [] left rest o h k = wait_header-found left rest o
  wait_header-noise (b ∷ noise) zero rest o h k = absurd (omega arith)
  wait_header-noise (b ∷ noise) (suc left) rest o h k = Run-bind d _ (Run-read d b _ o) (
      subst
        (λ x.
          Run d (if x then pure tt else wait_header t left) (noise ++ header_rx ∷ rest) o (ok tt)
            rest o)
        (sym (unequal k.0)) (wait_header-noise noise left rest o (omega arith) k.1))

-- The two length bytes, put together again.
len_word : (n : ℕ) → n < 65536 → bit_or (u16 (n / 256 % 256 * 256)) (n % 256) ≡ n
len_word n h =
    ap (λ (x : ℕ). bit_or x (n % 256)) small
    ∙ bit_or-fields 8 (n / 256) (n % 256) (omega arith)
    ∙ omega arith
  where
    small : u16 (n / 256 % 256 * 256) ≡ n / 256 * 2 ^ 8
    small = omega arith

-- What `recv_response` makes of a packet: the response if its last byte is the checksum of the
-- rest, and an error with both bytes if not.
abbrev pub verdict : ℕ → ℕ → ℕ → Bytes → Outcome Response
verdict crc cmd status payload =
    let expected = response_crc cmd status payload in
    if crc == expected
    then ok (record { cmd_id = cmd; status = status; payload = payload })
    else err (crc_mismatch crc expected)

same_length :
    (before : Bytes) (sent got : ℕ) (after : Bytes)
    → length (before ++ sent ∷ after) ≡ length (before ++ got ∷ after)
same_length [] sent got after = refl
same_length (b ∷ before) sent got after = ap suc (same_length before sent got after)

-- The checksum of a response tells a changed payload byte.
crc_ne :
    (cmd status : ℕ) (before : Bytes) (sent got : ℕ) (after : Bytes)
    → IsBytes (cmd ∷ status ∷ before)
    → sent < 256
    → got < 256
    → IsBytes after
    → sent ≢ got
    → response_crc cmd status (before ++ sent ∷ after)
      ≢ response_crc cmd status (before ++ got ∷ after)
crc_ne cmd status before sent got after bs sb gb ab ne e =
    let len = length (before ++ got ∷ after) in
    crc8_detects_byte (cmd ∷ status ∷ (to_be16 len ++ before)) sent got after
      (bs.0, (bs.1.0, (omega arith, (omega arith, bs.1.1)))) sb gb ab ne
      (rw (same_length before sent got after) at e)

module _ {S : Type 0} {t : Transport S} (d : IsStream t) where
  Run-payload :
      (payload rest o : Bytes)
      → Run d
          (if ltb 0 (length payload) then t.read_exact (length payload) else pure [])
          (payload ++ rest)
          o
          (ok payload)
          rest
          o
  Run-payload [] rest o = Run-pure d [] rest o
  Run-payload (b ∷ payload) rest o =
      Run-then d _ _ (lt→ltb 0 (length (b ∷ payload)) (omega arith))
        (Run-read_exact d (b ∷ payload) rest o)

  -- Behind up to 4096 bytes of noise with no header byte among them, a packet of the card reader,
  -- with any last byte, is taken whole from the link. It is returned as it was sent if the last byte
  -- is the checksum of the rest, and refused with both bytes if not.
  pub recv_response-verdict :
      (noise : Bytes) (crc cmd status : ℕ) (payload rest o : Bytes)
      → length noise ≤ 4096
      → All (λ b. b ≢ header_rx) noise
      → length payload < 65536
      → Run d
          (recv_response t)
          (noise ++ (response_with crc cmd status payload ++ rest))
          o
          (verdict crc cmd status payload)
          rest
          o
  unfolding recv_response
  recv_response-verdict noise crc cmd status payload rest o h k fits =
      Run-bind d _ (wait_header-noise d noise 4096 _ o h k) (
        Run-bind d _ (Run-read_exact d (cmd ∷ status ∷ to_be16 (length payload)) _ o) (
          rw (len_word (length payload) fits, append_assoc payload (crc ∷ []) rest)
            (Run-bind d _ (Run-payload payload (crc ∷ rest) o) (
              Run-bind d _ (Run-read_exact d (crc ∷ []) rest o)
                (Run-ensure d (crc == response_crc cmd status payload) _ _ rest o)))))

  -- A response that comes behind up to 4096 bytes of noise, none of which is a header byte, is
  -- received whole, and what follows it is still to come.
  pub recv_response-response_packet :
      (noise : Bytes) (cmd status : ℕ) (payload rest o : Bytes)
      → length noise ≤ 4096
      → All (λ b. b ≢ header_rx) noise
      → length payload < 65536
      → Run d
          (recv_response t)
          (noise ++ (response_packet cmd status payload ++ rest))
          o
          (ok (record { cmd_id = cmd; status = status; payload = payload }))
          rest
          o
  recv_response-response_packet noise cmd status payload rest o h k fits =
      rw (==-self (response_crc cmd status payload)) at (
        recv_response-verdict noise (response_crc cmd status payload) cmd status payload rest o h k
          fits)

  -- A response of which one payload byte was changed on the way is refused: the checksum does not
  -- fit, and the error shows the received one.
  pub recv_response_damaged :
      (noise : Bytes) (cmd status : ℕ) (before : Bytes) (sent got : ℕ) (after rest o : Bytes)
      → length noise ≤ 4096
      → All (λ b. b ≢ header_rx) noise
      → length (before ++ got ∷ after) < 65536
      → IsBytes (cmd ∷ status ∷ before)
      → sent < 256
      → got < 256
      → IsBytes after
      → sent ≢ got
      → let crc = response_crc cmd status (before ++ sent ∷ after) in
        let damaged = before ++ got ∷ after in
        Run d
          (recv_response t)
          (noise ++ (response_with crc cmd status damaged ++ rest))
          o
          (err (crc_mismatch crc (response_crc cmd status damaged)))
          rest
          o
  recv_response_damaged noise cmd status before sent got after rest o h k fits bs sb gb ab ne =
      let crc = response_crc cmd status (before ++ sent ∷ after) in
      let damaged = before ++ got ∷ after in
      rw (unequal (crc_ne cmd status before sent got after bs sb gb ab ne)) at
        (recv_response-verdict noise crc cmd status damaged rest o h k fits)

  -- After 4097 bytes with no header among them the reader gives up.
  wait_header_lost :
      (noise : Bytes) (left : ℕ) (rest o : Bytes)
      → length noise ≡ suc left
      → All (λ b. b ≢ header_rx) noise
      → Run d (wait_header t left) (noise ++ rest) o (err sync_lost) rest o
  unfolding wait_header wait_byte
  wait_header_lost [] left rest o h k = absurd (omega arith)
  wait_header_lost (b ∷ []) zero rest o h k =
      Run-bind d _ (Run-read d b rest o)
        (Run-else d _ _ (unequal k.0) (Run-outcome d (err sync_lost) rest o))
  wait_header_lost (b ∷ c ∷ noise) zero rest o h k = absurd (omega arith)
  wait_header_lost (b ∷ noise) (suc left) rest o h k =
      Run-bind d _ (Run-read d b _ o)
        (Run-else d _ _ (unequal k.0) (wait_header_lost noise left rest o (omega arith) k.1))

  -- After exactly 4097 bytes with no header among them `recv_response` reports lost sync, and
  -- leaves the next byte to be read.
  pub recv_response-sync_lost :
      (noise rest o : Bytes)
      → length noise ≡ 4097
      → All (λ b. b ≢ header_rx) noise
      → Run d (recv_response t) (noise ++ rest) o (err sync_lost) rest o
  unfolding recv_response
  recv_response-sync_lost noise rest o h k =
      Run-bind_err d _ (wait_header_lost noise 4096 rest o h k)

  pub send_command_no_recv-sends :
      (cmd : ℕ) (payload i o : Bytes)
      → Run d (send_command_no_recv t cmd payload) i o (ok tt) i (o ++ command_packet cmd payload)
  unfolding send_command_no_recv
  send_command_no_recv-sends cmd payload i o =
      Run-bind d _ (Run-write_all d (command_packet cmd payload) i o) (Run-flush d i _)

  -- A command goes out as one packet, and the response that comes is the result.
  pub send_command-response :
      (cmd : ℕ) (payload : Bytes) (r : Response) (rest o : Bytes)
      → length r.payload < 65536
      → Run d
          (send_command t cmd payload)
          (response_packet r.cmd_id r.status r.payload ++ rest)
          o
          (ok r)
          rest
          (o ++ command_packet cmd payload)
  unfolding send_command
  send_command-response cmd payload r rest o fits =
      Run-bind d _ (send_command_no_recv-sends cmd payload _ o)
        (recv_response-response_packet [] r.cmd_id r.status r.payload rest _ (omega arith) tt fits)

-- A command's packet, read as the README lays it out: header, command, length of the payload in
-- two bytes, payload, and a checksum that makes the whole behind the header check to 0.
pub command_packet_layout :
    (cmd : ℕ) (payload : Bytes)
    → length payload < 65536
    → let p = command_packet cmd payload in
      (byte_at p 0 ≡ header_tx)
      × (byte_at p 1 ≡ cmd)
      × (be16 p 2 ≡ length payload)
      × (take (be16 p 2) (drop 4 p) ≡ payload)
      × (length p ≡ length payload + 5)
      × (crc8 (drop 1 p) ≡ 0)
unfolding command_packet
command_packet_layout cmd payload fits =
    let len = u16 (length payload) in
    let two : be16 (to_be16 len) 0 ≡ length payload = omega arith in
    let crc = crc8 (cmd ∷ (to_be16 len ++ payload)) in
    (
      refl,
      refl,
      two,
      rw two (take-length_append (length payload) payload (crc ∷ []) refl),
      omega (arith, length-append payload (crc ∷ [])),
      crc8-append_self (cmd ∷ (to_be16 len ++ payload)),
    )
