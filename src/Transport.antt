-- ===== src/Transport.antt =====
-- emmc-gui/crates/emmc-core/src/transport.rs: the trait behind which a UART port or an FT245 FIFO
-- stands. The connection takes it as a parameter; `S` is the state of the link.
pub mod Stream
pub mod Script
use fpga_emmc_card_reader.Base.{ℕ, Bool, Bytes, Action}

pub record Transport (S : Type 0) : Type 0 where
  pub write_all : Bytes → Action S Unit
  pub flush : Action S Unit
  -- `read(&mut buf)` with a buffer of this length: the bytes that were put into it.
  pub read : ℕ → Action S Bytes
  -- `read_exact(&mut buf)`: all bytes of the buffer, or an error.
  pub read_exact : ℕ → Action S Bytes
  -- in seconds
  pub set_timeout : ℕ → Action S Unit
  pub purge_input : Action S Unit
  pub is_fifo : S → Bool
