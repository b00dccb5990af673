-- ===== src/Engine/Tests.antt =====
-- The theorems about the programmer's engine at concrete states.
use fpga_emmc_card_reader.Base.{[], ◌∷◌, ◌≡◌, arith, Bytes, ok, true}
use fpga_emmc_card_reader.Engine.Hex.{HexState, hex_apply_edit, hex_undo}
use fpga_emmc_card_reader.Engine.Hex.History.{
  History, edit, undo, redo, perform_all, loaded, perform_all-History, hex_undo-hex_apply_edit,
}

abbrev three_bytes : Bytes
three_bytes = 1 ∷ 2 ∷ 3 ∷ []

perform_all-History_example :
    (s : HexState) × (perform_all
        (edit 1 7 ∷ edit 2 9 ∷ undo ∷ redo ∷ edit 5 1 ∷ undo ∷ [])
        (loaded three_bytes)
      ≡ ok s)
    × History three_bytes s
perform_all-History_example =
    perform_all-History three_bytes (edit 1 7 ∷ edit 2 9 ∷ undo ∷ redo ∷ edit 5 1 ∷ undo ∷ [])

hex_undo-hex_apply_edit_example :
    (s' : HexState) × (hex_undo (hex_apply_edit 1 7 (loaded three_bytes)) ≡ ok s')
    × (s'.hex_data ≡ three_bytes)
    × (s'.hex_undo_stack ≡ [])
    × (s'.hex_modified 1 ≡ true)
hex_undo-hex_apply_edit_example =
    hex_undo-hex_apply_edit 1 7 (loaded three_bytes) (omega arith) (omega arith)
