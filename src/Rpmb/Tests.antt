-- ===== src/Rpmb/Tests.antt =====
-- The frames and the sessions at concrete values.
use fpga_emmc_card_reader.Base.{
  [], ◌∷◌, ◌++◌, none, some, ◌≡◌, refl, arith, ◌<◌, ◌^◌, ◌+◌, ◌/◌, length, replicate, Bytes, ok,
  take, Bool, true, ◌↔◌,
}
use fpga_emmc_card_reader.Base.Blit.{blit}
use fpga_emmc_card_reader.Transport.Script.{script, script-IsStream}
use fpga_emmc_card_reader.Transport.Stream.{Run}
use fpga_emmc_card_reader.Protocol.Ids.{cmd_set_rpmb_mode, cmd_set_partition, cmd_read_sector}
use fpga_emmc_card_reader.Protocol.Packet.{command_packet}
use fpga_emmc_card_reader.Protocol.Sectors.{address}
use fpga_emmc_card_reader.Protocol.Sectors.Reading.{sector_packet, completion}
use fpga_emmc_card_reader.Protocol.Sectors.Writing.{acks, packets_of, requests_of}
use fpga_emmc_card_reader.Rpmb.{
  RpmbFrame, build_frame, parse_frame, session, exchange, verify_mac, rpmb_test_key,
}
use fpga_emmc_card_reader.Rpmb.Frames.{part_or_zeros, parse_frame-build_frame}
use fpga_emmc_card_reader.Rpmb.Sessions.{done, session-leaves, Run-exchange}
use fpga_emmc_card_reader.Rpmb.Responses.{IsFrame, covered, frame_bytes, exchange-response}

abbrev nonce : Bytes
nonce = replicate 16 0xA5

parse_frame-build_frame_example :
    (length (build_frame 4 258 1 (some nonce) none none) ≡ 512)
    × (parse_frame (build_frame 4 258 1 (some nonce) none none) ≡ record {
      mac = part_or_zeros 32 none;
      data' = part_or_zeros 256 none;
      nonce = part_or_zeros 16 (some nonce);
      write_counter = 0;
      address = 258;
      block_count = 1;
      result = 0;
      req_resp_type = 4;
    })
parse_frame-build_frame_example =
    parse_frame-build_frame 4 258 1 (some nonce) none none refl tt tt (omega arith) (omega arith)
      (omega arith)

-- In the place of HMAC-SHA256: a function that gives 32 bytes, of the key and of the message.
abbrev mixed : Bytes → Bytes → Bytes
mixed key message = take 16 key ++ take 16 message

abbrev request : Bytes
request = build_frame 2 0 0 (some nonce) none none

-- The answer to a read of a block, with the MAC that it should have.
abbrev stuff : Bytes
stuff = replicate 196 0

abbrev answer : RpmbFrame
answer = record {
  mac = take 16 rpmb_test_key ++ replicate 16 0x5A;
  data' = replicate 256 0x5A;
  nonce = nonce;
  write_counter = 70000;
  address = 258;
  block_count = 1;
  result = 0;
  req_resp_type = 0x0400;
}

answer-IsFrame : IsFrame answer
answer-IsFrame = record {
  mac_size = refl;
  data_size = refl;
  nonce_size = refl;
  counter_size = omega arith;
  address_size = omega arith;
  count_size = omega arith;
  result_size = omega arith;
  type_size = omega arith;
}

abbrev reply : Bytes
reply = frame_bytes stuff answer

abbrev entered : Bytes
entered =
    ([] ++ command_packet cmd_set_rpmb_mode (1 ∷ [])) ++ command_packet cmd_set_partition (3 ∷ [])

abbrev answers : Bytes
answers =
    acks (requests_of 0 request)
    ++ (sector_packet reply
        ++ (completion ++ (done cmd_set_partition ++ (done cmd_set_rpmb_mode ++ []))))

request_small : (length request + 511) / 512 < 2 ^ 32
request_small = unfold build_frame blit in omega arith

exchange-response_example :
    (is_valid : Bool) × ((is_valid ≡ true) ↔ (answer.mac ≡ mixed rpmb_test_key (covered answer)))
    × Run script-IsStream
        (exchange mixed script request)
        (acks (requests_of 0 request) ++ (sector_packet reply ++ (completion ++ [])))
        []
        (ok (answer, is_valid))
        []
        (([] ++ packets_of (requests_of 0 request)) ++ command_packet cmd_read_sector (address 0 1))
exchange-response_example =
    exchange-response script-IsStream mixed request stuff [] [] answer request_small refl
      answer-IsFrame

session-leaves_example :
    Run script-IsStream
      (session mixed script request)
      (done cmd_set_rpmb_mode ++ (done cmd_set_partition ++ answers))
      []
      (ok (parse_frame reply, verify_mac mixed reply rpmb_test_key))
      []
      ((((entered ++ packets_of (requests_of 0 request))
            ++ command_packet cmd_read_sector (address 0 1))
          ++ command_packet cmd_set_partition (0 ∷ []))
        ++ command_packet cmd_set_rpmb_mode (0 ∷ []))
session-leaves_example =
    session-leaves script-IsStream mixed request
      (ok (parse_frame reply, verify_mac mixed reply rpmb_test_key)) answers []
      ((entered ++ packets_of (requests_of 0 request))
        ++ command_packet cmd_read_sector (address 0 1))
      [] (λ e. cc)
      (Run-exchange script-IsStream mixed request reply
        (done cmd_set_partition ++ (done cmd_set_rpmb_mode ++ [])) entered request_small refl)
