-- ===== src/Engine/Command/Laws.antt =====
-- Which commands ask before they run.
use fpga_emmc_card_reader.Base.{
  ◌≡◌, refl, Bool, true, false, Option, none, some, Bool-cases, ◌==◌, inl, inr,
}
use fpga_emmc_card_reader.Engine.Command.{
  Command, identify, read_sectors, write_sectors, write_sectors_data, erase, secure_erase,
  card_status, verify, blank_check, dump_full, restore_full, set_partition, read_ext_csd,
  write_ext_csd, send_raw_cmd, set_speed, set_baud, set_bus_width, controller_status, reinit,
  hex_write_back, ext4_load, ext4_navigate, ext4_read_file, ext4_overwrite_file, ext4_create_file,
  ext4_search, is_destructive, confirm_message,
}

abbrev is_some {ℓ} : {A : Type ℓ} → Option A → Bool
is_some none = false
is_some (some _) = true

-- A command has a question to confirm exactly if it is destructive.
is_destructive-is_some : (c : Command) → is_destructive c ≡ is_some (confirm_message c)
unfolding is_destructive confirm_message
is_destructive-is_some identify = refl
is_destructive-is_some (read_sectors _ _ _) = refl
is_destructive-is_some (write_sectors _ _ _) = refl
is_destructive-is_some (write_sectors_data _ _ _) = refl
is_destructive-is_some (erase _ _) = refl
is_destructive-is_some (secure_erase _ _) = refl
is_destructive-is_some card_status = refl
is_destructive-is_some (verify _ _) = refl
is_destructive-is_some (blank_check _ _) = refl
is_destructive-is_some (dump_full _ _) = refl
is_destructive-is_some (restore_full _ _) = refl
is_destructive-is_some (set_partition n) = elim (Bool-cases (n == 3)) [
  | inl e ↦ rw e refl
  | inr e ↦ rw e refl
]
is_destructive-is_some read_ext_csd = refl
is_destructive-is_some (write_ext_csd _ _) = refl
is_destructive-is_some (send_raw_cmd _ _ _) = refl
is_destructive-is_some (set_speed _) = refl
is_destructive-is_some (set_baud _) = refl
is_destructive-is_some (set_bus_width _) = refl
is_destructive-is_some controller_status = refl
is_destructive-is_some reinit = refl
is_destructive-is_some (hex_write_back _ _) = refl
is_destructive-is_some (ext4_load _) = refl
is_destructive-is_some (ext4_navigate _) = refl
is_destructive-is_some (ext4_read_file _) = refl
is_destructive-is_some (ext4_overwrite_file _ _) = refl
is_destructive-is_some (ext4_create_file _ _ _) = refl
is_destructive-is_some (ext4_search _) = refl
