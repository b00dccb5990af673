-- ===== src/Gui/Browser.antt =====
-- emmc-gui/crates/emmc-gui/src/panels/ext4_browser.rs: the partition that is named, the paths, and
-- the threads that the browser starts. `same_name` is `eq_ignore_ascii_case` of a partition's name.
use fpga_emmc_card_reader.Base.{
  ℕ, [], ◌∷◌, ◌++◌, List, Bool, not, ◌&&◌, if◌then◌else◌, ◌==◌, same_bytes, Bytes, Option, none,
  some, text, str, String,
}
use fpga_emmc_card_reader.Partition.{PartitionEntry, PartitionTable}
use fpga_emmc_card_reader.Ext4.Directory.{Ext4DirEntry}
use fpga_emmc_card_reader.App.Job as Job
use fpga_emmc_card_reader.App.State.{AppState}
use fpga_emmc_card_reader.Gui.{is_nil}
use fpga_emmc_card_reader.Gui.Strings.{codes, parse, to_string}
use fpga_emmc_card_reader.Gui.Dispatch.{Dispatched, start, ignored, u32_limit, u64_limit}
use fpga_emmc_card_reader.Gui.Panels.{asking, unless_busy, nothing, with_job}

-- `/`.
abbrev pub slash : ℕ
slash = 0x2F

abbrev pub first_or : Option ℕ → Option ℕ → Option ℕ
first_or (some n) later = some n
first_or none later = later

-- The first partition that passes a test.
unfoldable pub start_of : (PartitionEntry → Bool) → List PartitionEntry → Option ℕ
start_of p [] = none
start_of p (part ∷ parts) =
    let rest = start_of p parts in if p part then some part.start_lba else rest

abbrev pub with_index : Option ℕ → List PartitionEntry → Option ℕ
with_index none parts = none
with_index (some idx) parts = start_of (λ part. part.index == idx) parts

abbrev pub in_table : (String → Bytes → Bool) → Bytes → Option PartitionTable → Option ℕ
in_table same_name input none = none
in_table same_name input (some pt) =
    first_or (start_of (λ part. same_name part.name input) pt.partitions)
      (with_index (parse u32_limit input) pt.partitions)

-- `find_partition_start`, of the trimmed input.
unfoldable pub find_partition_start : (String → Bytes → Bool) → Bytes → AppState → Option ℕ
find_partition_start same_name input s =
    first_or (parse u64_limit input) (in_table same_name input s.partition_table)

-- `trim_end_matches('/')`.
unfoldable pub trim_end : Bytes → Bytes
trim_end [] = []
trim_end (b ∷ s) = let rest = trim_end s in if b == slash && is_nil rest then [] else b ∷ rest

-- What stands before the last slash, where there is one.
unfoldable pub before_last : Bytes → Option Bytes
before_last [] = none
before_last (b ∷ s) = joined b (before_last s)
  where
    joined : ℕ → Option Bytes → Option Bytes
    joined b (some front) = some (b ∷ front)
    joined b none = if b == slash then some [] else none

abbrev pub or_root : Option Bytes → Bytes
or_root none = slash ∷ []
or_root (some []) = slash ∷ []
or_root (some (b ∷ front)) = b ∷ front

unfoldable pub parent_path : Bytes → Bytes
unfolding before_last trim_end
parent_path path = or_root (before_last (trim_end path))

-- The path of an entry of a directory.
unfoldable pub entry_path : Bytes → Bytes → Bytes
entry_path current name = trim_end current ++ slash ∷ name

module _ (same_name : String → Bytes → Bool) (input : Bytes) where
  abbrev pub at_partition : Option ℕ → (ℕ → AppState → Dispatched) → AppState → Dispatched
  at_partition none f s = ignored s
  at_partition (some lba) f s = f lba s

  -- `navigate_ext4` and `read_ext4_file`, which do not ask whether a thread is running.
  unfoldable pub navigate_ext4 : Bytes → AppState → Dispatched
  navigate_ext4 path s =
      at_partition (find_partition_start same_name input s)
        (λ lba s'.
          with_job (text "Listing " ∷ str path ∷ text "..." ∷ []) (Job.ext4_ls lba path)
            (record s' { ext4_file_content = none; ext4_file_path = none }))
        s

  unfoldable pub read_ext4_file : Bytes → AppState → Dispatched
  read_ext4_file path s =
      at_partition (find_partition_start same_name input s)
        (λ lba. with_job (text "Reading " ∷ str path ∷ text "..." ∷ []) (Job.ext4_cat lba path)) s

  unfoldable pub load_clicked : AppState → Dispatched
  load_clicked = unless_busy ignored (λ s.
      at_partition (find_partition_start same_name input s)
        (λ lba. start "Loading ext4..." (Job.ext4_load lba)) s)

  -- A click on an entry: into a directory, or a file is read.
  unfoldable pub entry_clicked : Ext4DirEntry → AppState → Dispatched
  entry_clicked entry s =
      let is_dir = entry.file_type == 2 in
      let target =
        if same_bytes entry.name (codes "..")
        then parent_path s.ext4_current_path
        else entry_path s.ext4_current_path entry.name in
      if is_dir && not (same_bytes entry.name (codes "."))
      then navigate_ext4 target s
      else if not is_dir
      then read_ext4_file (entry_path s.ext4_current_path entry.name) s
      else ignored s

  unfoldable pub up_clicked : AppState → Dispatched
  up_clicked s = navigate_ext4 (parent_path s.ext4_current_path) s

  abbrev pub asked_overwrite : Bytes → Bytes → Bytes → Option ℕ → AppState → AppState
  asked_overwrite path local_path file_name none s = s
  asked_overwrite path local_path file_name (some lba) s =
      asking "Overwrite ext4 File"
        (text "Overwrite " ∷ str path ∷ text " with " ∷ str file_name ∷ text "?" ∷ [])
        (codes "ext4_write:" ++ to_string lba ++ 0x3A ∷ (path ++ 0x3A ∷ local_path)) s

  unfoldable pub overwrite_clicked : Option Bytes → Option (Bytes × Bytes) → AppState → AppState
  overwrite_clicked (some path) (some (local_path, file_name)) s =
      unless_busy nothing
        (asked_overwrite path local_path file_name (find_partition_start same_name input s)) s
  overwrite_clicked _ _ s = s

  -- "Create Empty File...".
  unfoldable pub create_empty_clicked : AppState → Dispatched
  create_empty_clicked = unless_busy ignored (λ s.
      at_partition (find_partition_start same_name input s)
        (λ lba.
          start "Creating empty file..."
            (Job.ext4_create lba s.ext4_current_path (codes "new_file") []))
        s)
