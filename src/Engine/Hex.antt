-- ===== src/Engine/Hex.antt =====
-- The hex editor of emmc-programmer/crates/programmer-engine/src/state.rs: the edited bytes, the
-- marks of changed places, and the two stacks of edits, with the last edit first.
pub mod History
use fpga_emmc_card_reader.Base.{
  ℕ, [], ◌∷◌, List, Bool, true, false, ◌||◌, ◌&&◌, not, if◌then◌else◌, ◌==◌, ltb, length, set,
  Bytes, byte_at, Outcome, ok, panic,
}
use fpga_emmc_card_reader.Base.Try.{◌>>=◌}

pub record HexEdit : Type 0 where
  pub offset : ℕ
  pub old_value : ℕ
  pub new_value : ℕ

pub record HexState : Type 0 where
  pub hex_data : Bytes
  -- the set as its membership test
  pub hex_modified : ℕ → Bool
  pub hex_undo_stack : List HexEdit
  pub hex_redo_stack : List HexEdit

abbrev pub insert : ℕ → (ℕ → Bool) → ℕ → Bool
insert x marks y = y == x || marks y

abbrev pub remove : ℕ → (ℕ → Bool) → ℕ → Bool
remove x marks y = not (y == x) && marks y

-- `data[i] = v`.
abbrev pub store : Bytes → ℕ → ℕ → Outcome Bytes
store d i v = if ltb i (length d) then ok (set d i v) else panic

unfoldable pub hex_apply_edit : ℕ → ℕ → HexState → HexState
hex_apply_edit offset new_value s =
    let old_value = byte_at s.hex_data offset in
    if ltb offset (length s.hex_data) && not (old_value == new_value)
    then record {
      hex_data = set s.hex_data offset new_value;
      hex_modified = insert offset s.hex_modified;
      hex_undo_stack =
          record { offset = offset; old_value = old_value; new_value = new_value }
          ∷ s.hex_undo_stack;
      hex_redo_stack = [];
    }
    else s

abbrev pub taken_back : HexEdit → List HexEdit → HexState → Bytes → HexState
taken_back edit rest s d = record {
  hex_data = d;
  hex_modified =
      if edit.old_value == edit.new_value
      then remove edit.offset s.hex_modified
      else s.hex_modified;
  hex_undo_stack = rest;
  hex_redo_stack = edit ∷ s.hex_redo_stack;
}

abbrev pub undo_top : List HexEdit → HexState → Outcome HexState
undo_top [] s = ok s
undo_top (edit ∷ rest) s = do
  d ← store s.hex_data edit.offset edit.old_value
  ok (taken_back edit rest s d)

unfoldable pub hex_undo : HexState → Outcome HexState
hex_undo s = undo_top s.hex_undo_stack s

abbrev pub done_again : HexEdit → List HexEdit → HexState → Bytes → HexState
done_again edit rest s d = record {
  hex_data = d;
  hex_modified = insert edit.offset s.hex_modified;
  hex_undo_stack = edit ∷ s.hex_undo_stack;
  hex_redo_stack = rest;
}

abbrev pub redo_top : List HexEdit → HexState → Outcome HexState
redo_top [] s = ok s
redo_top (edit ∷ rest) s = do
  d ← store s.hex_data edit.offset edit.new_value
  ok (done_again edit rest s d)

unfoldable pub hex_redo : HexState → Outcome HexState
hex_redo s = redo_top s.hex_redo_stack s
