-- ===== src/App/HexDump.antt =====
-- `hex_dump` of emmc-gui/crates/emmc-app/src/operations.rs.
use fpga_emmc_card_reader.Base.{
  ℕ, zero, suc, ◌+◌, ◌-◌, ◌*◌, ◌/◌, min, [], ◌∷◌, ◌++◌, Bool, if◌then◌else◌, ltb, leb, ◌==◌, ◌&&◌,
  ◌||◌, length, take, drop, Bytes, Message, text, dec, str, upper_hex, upper_hex2,
}

-- The bytes of a line from the `j`-th on, with a gap behind the eighth.
unfoldable pub hex_cells : ℕ → Bytes → Message
hex_cells j [] = []
hex_cells j (byte ∷ rest) =
    let later = hex_cells (j + 1) rest in
    let gap = if j == 7 then text " " ∷ later else later in upper_hex2 byte ∷ text " " ∷ gap

-- Room for the bytes that a short line lacks, from the `at`-th place of the line on.
unfoldable pub hex_room : ℕ → ℕ → Message
hex_room zero at = []
hex_room (suc n) at =
    let later = hex_room n (at + 1) in
    let gap = if at == 7 then text " " ∷ later else later in text "   " ∷ gap

-- `is_ascii_graphic() || == b' '`.
abbrev pub is_shown : ℕ → Bool
is_shown byte = (leb 0x21 byte && leb byte 0x7E) || byte == 0x20

unfoldable pub ascii_cells : Bytes → Message
ascii_cells [] = []
ascii_cells (byte ∷ rest) =
    let later = ascii_cells rest in
    if is_shown byte then str (byte ∷ []) ∷ later else text "." ∷ later

unfoldable pub hex_line : ℕ → Bytes → Message
unfolding hex_cells hex_room ascii_cells
hex_line i chunk =
    upper_hex 8 (i * 16)
    ∷ text "  "
    ∷ (hex_cells 0 chunk
        ++ hex_room (16 - length chunk) (length chunk)
        ++ text " |" ∷ (ascii_cells chunk ++ text "|\n" ∷ []))

-- `chunks(16)`, so many of them from the `i`-th on.
unfoldable pub hex_lines : ℕ → ℕ → Bytes → Message
unfolding hex_line
hex_lines zero i shown = []
hex_lines (suc n) i shown = hex_line i (take 16 shown) ++ hex_lines n (i + 1) (drop 16 shown)

unfoldable pub hex_dump : Bytes → ℕ → Message
unfolding hex_lines
hex_dump data' max_bytes =
    let show = min (length data') max_bytes in
    let more =
      if ltb show (length data')
      then text "... (" ∷ dec (length data' - show) ∷ text " more bytes)\n" ∷ []
      else [] in
    hex_lines ((show + 15) / 16) 0 (take show data') ++ more
