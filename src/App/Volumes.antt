-- ===== src/App/Volumes.antt =====
-- The threads of emmc-gui/crates/emmc-app/src/operations.rs over an ext4 partition. Each opens the
-- file system anew. Paths are the bytes of their UTF-8 text.
use fpga_emmc_card_reader.Base.{ℕ, [], ◌∷◌, ◌++◌, if◌then◌else◌, Bytes, same_bytes, Action}
use fpga_emmc_card_reader.Ext4.Volume.{Ext4Fs, info}
use fpga_emmc_card_reader.Ext4.Fs.{Host, over, open_volume}
use fpga_emmc_card_reader.Ext4.Fs.Files.{ls, cat, lookup, overwrite_file_data}
use fpga_emmc_card_reader.Ext4.Fs.Create.{create_file}
use fpga_emmc_card_reader.App.Message.{
  ext4_loaded, ext4_dir_listing, ext4_file_content, ext4_written, ext4_created,
}
use fpga_emmc_card_reader.App.Task.{Task, Desk, attempt, send, last, fail, on_connection}

-- `"/"`.
abbrev pub root : Bytes
root = 0x2F ∷ []

-- The path of a new file.
unfoldable pub full_path : Bytes → Bytes → Bytes
full_path parent_path name =
    if same_bytes parent_path root then root ++ name else parent_path ++ root ++ name

module _ {S : Type 0} (desk : Desk S) where
  abbrev pub host : Host S
  host = over desk.link desk.volumes

  -- An operation of a file system that was opened; its copy of the descriptors is dropped with it.
  unfoldable pub on_volume : {A : Type 0} → Ext4Fs → Action (Ext4Fs × S) A → Action S A
  on_volume fs m s = let r = m (fs, s) in (r.0, r.1.1)

module _ {S : Type 0} (desk : Desk S) (port : Bytes) (baud partition_lba : ℕ) where
  unfoldable pub ext4_load : Task S Unit
  ext4_load =
      let opened = λ (fs : Ext4Fs).
        let unlisted = last (ext4_loaded (info fs)) in
        attempt (on_volume desk fs (ls (host desk) root)) (λ _. unlisted)
          (λ entries. send (ext4_loaded (info fs)) (last (ext4_dir_listing root entries))) in
      on_connection desk port baud
        (attempt (open_volume (host desk) partition_lba) (fail "ext4 load failed: ") opened)

  unfoldable pub on_opened : (Ext4Fs → Task S Unit) → Task S Unit
  on_opened rest =
      on_connection desk port baud
        (attempt (open_volume (host desk) partition_lba) (fail "ext4 open failed: ") rest)

  unfoldable pub ext4_ls : Bytes → Task S Unit
  ext4_ls path = on_opened (λ fs.
      attempt (on_volume desk fs (ls (host desk) path)) (fail "ls failed: ")
        (λ entries. last (ext4_dir_listing path entries)))

  unfoldable pub ext4_cat : Bytes → Task S Unit
  ext4_cat path = on_opened (λ fs.
      attempt (on_volume desk fs (cat (host desk) path)) (fail "cat failed: ")
        (λ d. last (ext4_file_content path d)))

  unfoldable pub ext4_write : Bytes → Bytes → Task S Unit
  ext4_write path data' = on_opened (λ fs.
      attempt (on_volume desk fs (lookup (host desk) path)) (fail "Lookup failed: ") (λ inode.
        attempt (on_volume desk fs (overwrite_file_data (host desk) inode data'))
          (fail "Overwrite failed: ") (λ _. last (ext4_written path))))

  unfoldable pub ext4_create : Bytes → Bytes → Bytes → Task S Unit
  ext4_create parent_path name data' = on_opened (λ fs.
      attempt (on_volume desk fs (create_file (host desk) parent_path name data'))
        (fail "Create file failed: ") (λ _. last (ext4_created (full_path parent_path name))))
