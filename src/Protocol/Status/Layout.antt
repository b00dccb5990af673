-- ===== src/Protocol/Status/Layout.antt =====
-- Where each field of the status stands in its bytes: an encoder, which `parse` undoes.
use fpga_emmc_card_reader.Base.{
  ℕ, ◌+◌, ◌-◌, ◌*◌, ◌/◌, ◌%◌, ◌^◌, ◌<◌, bit_and, bit_or, [], ◌∷◌, ◌≡◌, ap, ◌∙◌, arith, Bool, true,
  false, not, ◌==◌, Bytes, u8,
}
use fpga_emmc_card_reader.Base.Bits.{bit_and-mask, bit_or-fields}
use fpga_emmc_card_reader.Protocol.Status.{ControllerStatus, parse}

abbrev bit : Bool → ℕ
bit true = 1
bit false = 0

pub encode : ControllerStatus → Bytes
encode s =
    s.resp_status
    ∷ (s.init_state * 16 + s.mc_state / 4)
    ∷ (s.mc_state % 4 * 64 + bit s.info_valid * 32 + bit s.cmd_ready * 16)
    ∷ (bit s.cmd_pin * 128 + bit s.dat0_pin * 64)
    ∷ (s.cmd_fsm * 32 + s.dat_fsm * 2 + bit s.use_fast_clk)
    ∷ (s.partition * 64 + bit s.reinit_pending * 32)
    ∷ s.cmd_timeout_cnt
    ∷ s.cmd_crc_err_cnt
    ∷ s.dat_rd_err_cnt
    ∷ s.dat_wr_err_cnt
    ∷ s.init_retry_cnt
    ∷ (s.baud_preset * 8 + s.clk_preset)
    ∷ []

-- The widths of the fields in bits.
pub record InRange (s : ControllerStatus) : Type 0 where
  pub init_state : s.init_state < 2 ^ 4
  pub mc_state : s.mc_state < 2 ^ 5
  pub cmd_fsm : s.cmd_fsm < 2 ^ 3
  pub dat_fsm : s.dat_fsm < 2 ^ 4
  pub partition : s.partition < 2 ^ 2
  pub baud_preset : s.baud_preset < 2 ^ 2
  pub clk_preset : s.clk_preset < 2 ^ 3

-- A field of `k` bits between others.
field : (k x v : ℕ) → x % 2 ^ k ≡ v → bit_and x (2 ^ k - 1) ≡ v
field k x v h = bit_and-mask k x ∙ h

-- A single bit.
flag_of : (x : ℕ) (b : Bool) → x % 2 ≡ bit b → not (bit_and x 1 == 0) ≡ b
flag_of x true h = ground (arith, bit_and-mask 1 x)
flag_of x false h = ground (arith, bit_and-mask 1 x)

two_parts : (m : ℕ) → m < 2 ^ 5 → bit_or (u8 (m / 4 * 4)) (m % 4) ≡ m
two_parts m h =
    ap (λ (x : ℕ). bit_or x (m % 4)) small
    ∙ bit_or-fields 2 (m / 4) (m % 4) (omega arith)
    ∙ omega arith
  where
    small : u8 (m / 4 * 4) ≡ m / 4 * 2 ^ 2
    small = omega arith

bit-lt : (b : Bool) → bit b < 2
bit-lt true = omega arith
bit-lt false = omega arith

module _ (s : ControllerStatus) (r : InRange s) where
  mc_state_back :
      bit_or (u8 (bit_and (s.init_state * 16 + s.mc_state / 4) 0x07 * 2 ^ 2)) (
        bit_and ((s.mc_state % 4 * 64 + bit s.info_valid * 32 + bit s.cmd_ready * 16) / 2 ^ 6) 0x03)
      ≡ s.mc_state
  mc_state_back =
      rw
        (
          field 3 (s.init_state * 16 + s.mc_state / 4) (s.mc_state / 4) (omega (arith, r.mc_state)),
          field 2 ((s.mc_state % 4 * 64 + bit s.info_valid * 32 + bit s.cmd_ready * 16) / 2 ^ 6)
              (s.mc_state % 4) (omega (arith, bit-lt s.info_valid, bit-lt s.cmd_ready)),
        )
        (two_parts s.mc_state r.mc_state)

-- Each field comes back from the bytes in which the card reader packs it.
pub parse-encode : (s : ControllerStatus) → InRange s → parse (encode s) ≡ s
unfolding parse encode
parse-encode s r =
    let second = s.mc_state % 4 * 64 + bit s.info_valid * 32 + bit s.cmd_ready * 16 in
    let third = bit s.cmd_pin * 128 + bit s.dat0_pin * 64 in
    let fourth = s.cmd_fsm * 32 + s.dat_fsm * 2 + bit s.use_fast_clk in
    let fifth = s.partition * 64 + bit s.reinit_pending * 32 in
    let last = s.baud_preset * 8 + s.clk_preset in
    λ i. record {
      resp_status = s.resp_status;
      init_state =
          field 4 ((s.init_state * 16 + s.mc_state / 4) / 2 ^ 4) s.init_state
            (omega (arith, r.init_state, r.mc_state)) i;
      mc_state = mc_state_back s r i;
      info_valid =
          flag_of (second / 2 ^ 5) s.info_valid
            (omega (arith, bit-lt s.info_valid, bit-lt s.cmd_ready)) i;
      cmd_ready =
          flag_of (second / 2 ^ 4) s.cmd_ready
            (omega (arith, bit-lt s.info_valid, bit-lt s.cmd_ready)) i;
      cmd_pin =
          flag_of (third / 2 ^ 7) s.cmd_pin (omega (arith, bit-lt s.cmd_pin, bit-lt s.dat0_pin)) i;
      dat0_pin =
          flag_of (third / 2 ^ 6) s.dat0_pin (omega (arith, bit-lt s.cmd_pin, bit-lt s.dat0_pin)) i;
      cmd_fsm =
          field 3 (fourth / 2 ^ 5) s.cmd_fsm
            (omega (arith, bit-lt s.use_fast_clk, r.dat_fsm, r.cmd_fsm)) i;
      dat_fsm =
          field 4 (fourth / 2 ^ 1) s.dat_fsm (omega (arith, bit-lt s.use_fast_clk, r.dat_fsm)) i;
      use_fast_clk = flag_of fourth s.use_fast_clk (omega (arith, bit-lt s.use_fast_clk)) i;
      partition =
          field 2 (fifth / 2 ^ 6) s.partition (omega (arith, bit-lt s.reinit_pending, r.partition))
            i;
      reinit_pending =
          flag_of (fifth / 2 ^ 5) s.reinit_pending (omega (arith, bit-lt s.reinit_pending)) i;
      cmd_timeout_cnt = s.cmd_timeout_cnt;
      cmd_crc_err_cnt = s.cmd_crc_err_cnt;
      dat_rd_err_cnt = s.dat_rd_err_cnt;
      dat_wr_err_cnt = s.dat_wr_err_cnt;
      init_retry_cnt = s.init_retry_cnt;
      baud_preset =
          field 2 (last / 2 ^ 3) s.baud_preset (omega (arith, r.clk_preset, r.baud_preset)) i;
      clk_preset = field 3 last s.clk_preset (omega (arith, r.clk_preset)) i;
    }
