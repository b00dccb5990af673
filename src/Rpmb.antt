-- ===== src/Rpmb.antt =====
-- emmc-gui/crates/emmc-core/src/rpmb.rs: frames of the replay protected memory block, and the
-- sessions that exchange them. HMAC-SHA256 is a parameter, as are the random bytes of a nonce.
pub mod Frames
pub mod Sessions
pub mod Responses
mod Tests
use fpga_emmc_card_reader.Base.{
  same_bytes, ℕ, zero, suc, ◌+◌, ◌/◌, [], ◌∷◌, ◌++◌, Bool, true, false, ◌&&◌, Option, none, some,
  if◌then◌else◌, ◌==◌, leb, length, slice, replicate, Bytes, be16, be32, u8, Outcome, ok, err,
  panic, Action, ◌>>=◌, ◌>>◌, pure, ensure, short_data, String, get_or,
}
use fpga_emmc_card_reader.Base.Blit.{blit}
use fpga_emmc_card_reader.Transport.{Transport}
use fpga_emmc_card_reader.Protocol.Sectors.{read_sectors, write_sectors}
use fpga_emmc_card_reader.Protocol.Commands.{set_partition, set_rpmb_mode}

abbrev pub rpmb_test_key : Bytes
rpmb_test_key =
    0xD3 ∷ 0xEB ∷ 0x3E ∷ 0xC3 ∷ 0x6E ∷ 0x33 ∷ 0x4C ∷ 0x9F ∷ 0x98 ∷ 0x8C ∷ 0xE2 ∷ 0xC0 ∷ 0xB8 ∷ 0x59
    ∷ 0x54 ∷ 0x61 ∷ 0x0D ∷ 0x2B ∷ 0xCF ∷ 0x86 ∷ 0x64 ∷ 0x84 ∷ 0x4D ∷ 0xF2 ∷ 0xAB ∷ 0x56 ∷ 0xC9
    ∷ 0xB4 ∷ 0x1B ∷ 0xB7 ∷ 0x01 ∷ 0xE4 ∷ []

unfoldable pub result_name : ℕ → String
result_name code =
    get_or
      ("OK" ∷ "General failure" ∷ "Authentication failure" ∷ "Counter failure" ∷ "Address failure"
        ∷ "Write failure" ∷ "Read failure" ∷ "Auth key not programmed" ∷ [])
      code "Unknown"

pub record RpmbFrame : Type 0 where
  pub mac : Bytes
  pub data' : Bytes
  pub nonce : Bytes
  pub write_counter : ℕ
  pub address : ℕ
  pub block_count : ℕ
  pub result : ℕ
  pub req_resp_type : ℕ

-- `if let Some(x) = part { frame[off..].copy_from_slice(x) }`.
abbrev pub blit_some : ℕ → Option Bytes → Bytes → Bytes
blit_some off none frame = frame
blit_some off (some part) frame = blit off part frame

-- `(x >> 8) as u8` and `x as u8`.
abbrev pub two_bytes : ℕ → Bytes
two_bytes x = u8 (x / 256) ∷ u8 x ∷ []

unfoldable pub build_frame : ℕ → ℕ → ℕ → Option Bytes → Option Bytes → Option Bytes → Bytes
build_frame req_type address block_count nonce data' mac =
    let empty = replicate 512 0 in
    let with_mac = blit_some 196 mac empty in
    let with_data = blit_some 228 data' with_mac in
    let with_nonce = blit_some 484 nonce with_data in
    let with_address = blit 504 (two_bytes address) with_nonce in
    let with_count = blit 506 (two_bytes block_count) with_address in
    blit 510 (two_bytes req_type) with_count

-- The raw frame has at least 512 bytes: the callers check it.
unfoldable pub parse_frame : Bytes → RpmbFrame
parse_frame raw = record {
  mac = slice 196 228 raw;
  data' = slice 228 484 raw;
  nonce = slice 484 500 raw;
  write_counter = be32 raw 500;
  address = be16 raw 504;
  block_count = be16 raw 506;
  result = be16 raw 508;
  req_resp_type = be16 raw 510;
}

-- `hmac key message`.
module _ (hmac : Bytes → Bytes → Bytes) where
  pub calc_mac : Bytes → Bytes → Bytes
  calc_mac frame key = hmac key (slice 228 512 frame)

  pub verify_mac : Bytes → Bytes → Bool
  unfolding calc_mac
  verify_mac frame key = same_bytes (slice 196 228 frame) (calc_mac frame key)

-- `let result = body(); let _ = cleanup; result`: the cleanup runs after an error too, and its own
-- error is dropped. After a panic it does not run.
abbrev pub keep_result {ℓ} : {S A B : Type ℓ} → Outcome A → Outcome B × S → Outcome A × S
keep_result r (ok _, s) = (r, s)
keep_result r (err _, s) = (r, s)
keep_result r (panic, s) = (panic, s)

abbrev pub clean_up {ℓ} : {S A B : Type ℓ} → Action S B → Outcome A → S → Outcome A × S
clean_up cleanup (ok a) s = keep_result (ok a) (cleanup s)
clean_up cleanup (err e) s = keep_result (err e) (cleanup s)
clean_up cleanup panic s = (panic, s)

unfoldable pub finally {ℓ} : {S A B : Type ℓ} → Action S A → Action S B → Action S A
finally body cleanup s = clean_up cleanup (body s).0 (body s).1

module _ (hmac : Bytes → Bytes → Bytes) {S : Type 0} (t : Transport S) where
  -- The inner closure of both sessions.
  unfoldable pub exchange : Bytes → Action S (RpmbFrame × Bool)
  exchange req = do
    write_sectors t 0 req
    resp_data ← read_sectors t 0 1
    ensure (leb 512 (length resp_data)) (short_data (length resp_data))
    pure (parse_frame resp_data, verify_mac hmac resp_data rpmb_test_key)

  -- RPMB mode and the RPMB partition around an exchange.
  unfoldable pub session : Bytes → Action S (RpmbFrame × Bool)
  session req = do
    set_rpmb_mode t true
    finally (do set_partition t 3; finally (exchange req) (set_partition t 0))
        (set_rpmb_mode t false)

  pub read_counter : Bytes → Action S (RpmbFrame × Bool)
  unfolding session
  read_counter nonce = session (build_frame 0x0002 0 0 (some nonce) none none)

  pub read_data : Bytes → ℕ → Action S (RpmbFrame × Bool)
  unfolding session
  read_data nonce address = session (build_frame 0x0004 address 1 (some nonce) none none)
