-- ===== src/Base/Text.antt =====
-- `format!`: a message as the pieces that its format string puts together.
use Prim.Native.Nat.{ℕ}
use Prim.Native.String.{String}
use mathlib.Core.List.{List}
use fpga_emmc_card_reader.Base.Actions.{Error}

pub data Piece : Type 0 where
  text : String → Piece
  -- `{}` of a number, and `{:02}`
  dec dec2 : ℕ → Piece
  -- `{:02x}` and `{:02X}`
  hex2 upper_hex2 : ℕ → Piece
  -- `{:0wx}`
  hex : (width value : ℕ) → Piece
  -- `{:0wX}`
  upper_hex : (width value : ℕ) → Piece
  -- `{}` of a string, as its bytes, and of an error
  str : List ℕ → Piece
  cause : Error → Piece

abbrev pub Message : Type 0
Message = List Piece
