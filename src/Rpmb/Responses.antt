-- ===== src/Rpmb/Responses.antt =====
-- The card's answer in an exchange: its layout after the JEDEC frame, and what becomes of its MAC.
use fpga_emmc_card_reader.Base.{
  ℕ, ◌/◌, ◌+◌, ◌^◌, ◌<◌, ◌++◌, ◌≡◌, refl, sym, ap, ap₂, ◌∙◌, arith, length, length-append, slice,
  take, drop, drop-drop, take_all, take-length_append, drop-length_append, Bytes, byte_at,
  byte_at-append_at, be16, be32, to_be16, to_be32, same_bytes, same_bytes-eq, same_bytes_self, ok,
  Bool, true, ◌↔◌, subst,
}
use fpga_emmc_card_reader.Transport.{Transport}
use fpga_emmc_card_reader.Transport.Stream.{IsStream, Run}
use fpga_emmc_card_reader.Protocol.Ids.{cmd_read_sector}
use fpga_emmc_card_reader.Protocol.Packet.{command_packet}
use fpga_emmc_card_reader.Protocol.Sectors.{address}
use fpga_emmc_card_reader.Protocol.Sectors.Reading.{sector_packet, completion}
use fpga_emmc_card_reader.Protocol.Sectors.Writing.{acks, packets_of, requests_of}
use fpga_emmc_card_reader.Rpmb.{
  RpmbFrame, parse_frame, calc_mac, verify_mac, rpmb_test_key, exchange,
}
use fpga_emmc_card_reader.Rpmb.Sessions.{Run-exchange}

-- The fields have their sizes.
pub record IsFrame (f : RpmbFrame) : Type 0 where
  pub mac_size : length f.mac ≡ 32
  pub data_size : length f.data' ≡ 256
  pub nonce_size : length f.nonce ≡ 16
  pub counter_size : f.write_counter < 4294967296
  pub address_size : f.address < 65536
  pub count_size : f.block_count < 65536
  pub result_size : f.result < 65536
  pub type_size : f.req_resp_type < 65536

-- The numbers at the end of a frame, the part of it that the MAC is taken over, and the whole frame
-- behind its stuff bytes.
abbrev pub numbers : RpmbFrame → Bytes
numbers f =
    to_be32 f.write_counter
    ++ (to_be16 f.address
        ++ (to_be16 f.block_count ++ (to_be16 f.result ++ to_be16 f.req_resp_type)))

abbrev pub covered : RpmbFrame → Bytes
covered f = f.data' ++ (f.nonce ++ numbers f)

abbrev pub frame_bytes : Bytes → RpmbFrame → Bytes
frame_bytes stuff f = stuff ++ (f.mac ++ covered f)

drop-append :
    (n k m : ℕ) (xs ys : Bytes) → length xs ≡ n → m ≡ n + k → drop m (xs ++ ys) ≡ drop k ys
drop-append n k m xs ys h e =
    ap (λ j. drop j (xs ++ ys)) e
    ∙ sym (drop-drop k n (n + k) (xs ++ ys) refl)
    ∙ ap (drop k) (drop-length_append n xs ys h)

module _ (stuff : Bytes) (f : RpmbFrame) (room : length stuff ≡ 196) (h : IsFrame f) where
  length-frame_bytes : length (frame_bytes stuff f) ≡ 512
  length-frame_bytes = omega (
    arith,
    room,
    h.mac_size,
    h.data_size,
    h.nonce_size,
    length-append stuff (f.mac ++ covered f),
    length-append f.mac (covered f),
    length-append f.data' (f.nonce ++ numbers f),
    length-append f.nonce (numbers f),
  )

  at_mac : drop 196 (frame_bytes stuff f) ≡ f.mac ++ covered f
  at_mac = drop-length_append 196 stuff _ room

  at_covered : drop 228 (frame_bytes stuff f) ≡ covered f
  at_covered = drop-append 196 32 228 stuff _ room refl ∙ drop-length_append 32 f.mac _ h.mac_size

  at_nonce : drop 484 (frame_bytes stuff f) ≡ f.nonce ++ numbers f
  at_nonce =
      drop-append 196 288 484 stuff _ room refl
      ∙ drop-append 32 256 288 f.mac _ h.mac_size refl
      ∙ drop-length_append 256 f.data' _ h.data_size

  at_numbers : (i at : ℕ) → at ≡ 500 + i → byte_at (frame_bytes stuff f) at ≡ byte_at (numbers f) i
  at_numbers i at e =
      byte_at-append_at stuff _ at (304 + i) (omega (arith, e, room))
      ∙ byte_at-append_at f.mac _ (304 + i) (272 + i) (omega (arith, h.mac_size))
      ∙ byte_at-append_at f.data' _ (272 + i) (16 + i) (omega (arith, h.data_size))
      ∙ byte_at-append_at f.nonce (numbers f) (16 + i) i (omega (arith, h.nonce_size))

  length-covered : length (covered f) ≡ 284
  length-covered = omega (
    arith,
    h.data_size,
    h.nonce_size,
    length-append f.data' (f.nonce ++ numbers f),
    length-append f.nonce (numbers f),
  )

  mac_read : slice 196 228 (frame_bytes stuff f) ≡ f.mac
  mac_read = ap (take 32) at_mac ∙ take-length_append 32 f.mac (covered f) h.mac_size

  data_read : slice 228 484 (frame_bytes stuff f) ≡ f.data'
  data_read =
      ap (take 256) at_covered ∙ take-length_append 256 f.data' (f.nonce ++ numbers f) h.data_size

  nonce_read : slice 484 500 (frame_bytes stuff f) ≡ f.nonce
  nonce_read = ap (take 16) at_nonce ∙ take-length_append 16 f.nonce (numbers f) h.nonce_size

  covered_read : slice 228 512 (frame_bytes stuff f) ≡ covered f
  covered_read = ap (take 284) at_covered ∙ take_all 284 (covered f) (omega (arith, length-covered))

  counter_read : be32 (frame_bytes stuff f) 500 ≡ f.write_counter
  counter_read = omega (
    arith,
    h.counter_size,
    at_numbers 0 500 refl,
    at_numbers 1 501 refl,
    at_numbers 2 502 refl,
    at_numbers 3 503 refl,
  )

  address_read : be16 (frame_bytes stuff f) 504 ≡ f.address
  address_read = omega (arith, h.address_size, at_numbers 4 504 refl, at_numbers 5 505 refl)

  count_read : be16 (frame_bytes stuff f) 506 ≡ f.block_count
  count_read = omega (arith, h.count_size, at_numbers 6 506 refl, at_numbers 7 507 refl)

  result_read : be16 (frame_bytes stuff f) 508 ≡ f.result
  result_read = omega (arith, h.result_size, at_numbers 8 508 refl, at_numbers 9 509 refl)

  type_read : be16 (frame_bytes stuff f) 510 ≡ f.req_resp_type
  type_read = omega (arith, h.type_size, at_numbers 10 510 refl, at_numbers 11 511 refl)

  parse_frame-frame_bytes : parse_frame (frame_bytes stuff f) ≡ f
  unfolding parse_frame
  parse_frame-frame_bytes i = record {
    mac = mac_read i;
    data' = data_read i;
    nonce = nonce_read i;
    write_counter = counter_read i;
    address = address_read i;
    block_count = count_read i;
    result = result_read i;
    req_resp_type = type_read i;
  }

  verify_mac-frame_bytes :
      (hmac : Bytes → Bytes → Bytes) (key : Bytes)
      → verify_mac hmac (frame_bytes stuff f) key ≡ same_bytes f.mac (hmac key (covered f))
  unfolding verify_mac calc_mac
  verify_mac-frame_bytes hmac key = ap₂ same_bytes mac_read (ap (hmac key) covered_read)

same_bytes_iff : (xs ys : Bytes) → (same_bytes xs ys ≡ true) ↔ (xs ≡ ys)
same_bytes_iff xs ys =
    (same_bytes-eq xs ys, λ e. ap (λ zs. same_bytes zs ys) e ∙ same_bytes_self ys)

module _ {S : Type 0} {t : Transport S} (d : IsStream t) (hmac : Bytes → Bytes → Bytes) where
  -- An exchange whose request packets the card reader acknowledges, and for which it then sends the
  -- sector of a frame, its stuff bytes, MAC, data, nonce and numbers in the order and the sizes of the
  -- standard, sends the padded request to sector 0 and one read command. It returns just the fields of
  -- the frame, and a verdict that is true exactly if the MAC of the frame is the HMAC, under the test
  -- key, of all that follows it.
  pub exchange-response :
      (req stuff rest o : Bytes) (f : RpmbFrame)
      → (length req + 511) / 512 < 2 ^ 32
      → length stuff ≡ 196
      → IsFrame f
      → (is_valid : Bool) × ((is_valid ≡ true) ↔ (f.mac ≡ hmac rpmb_test_key (covered f)))
        × Run d
            (exchange hmac t req)
            (acks (requests_of 0 req)
              ++ (sector_packet (frame_bytes stuff f) ++ (completion ++ rest)))
            o
            (ok (f, is_valid))
            rest
            ((o ++ packets_of (requests_of 0 req)) ++ command_packet cmd_read_sector (address 0 1))
  exchange-response req stuff rest o f small room h = (
    same_bytes f.mac (hmac rpmb_test_key (covered f)),
    same_bytes_iff f.mac (hmac rpmb_test_key (covered f)),
    Run-respell_result (
        Run-exchange d hmac req (frame_bytes stuff f) rest o small
          (length-frame_bytes stuff f room h)),
  )
    where
      Run-respell_result :
          {i o' i' : Bytes}
          → Run d
              (exchange hmac t req)
              i
              o
              (ok (
                parse_frame (frame_bytes stuff f),
                verify_mac hmac (frame_bytes stuff f) rpmb_test_key,
              ))
              i'
              o'
          → Run d
              (exchange hmac t req)
              i
              o
              (ok (f, same_bytes f.mac (hmac rpmb_test_key (covered f))))
              i'
              o'
      Run-respell_result {i = i} {o' = o'} {i' = i'} run =
          subst (λ x. Run d (exchange hmac t req) i o (ok x) i' o')
            (ap₂ (λ a b. (a, b)) (parse_frame-frame_bytes stuff f room h)
              (verify_mac-frame_bytes stuff f room h hmac rpmb_test_key))
            run
