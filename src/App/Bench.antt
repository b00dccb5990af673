-- ===== src/App/Bench.antt =====
-- A machine for examples: its card reader plays a script, and any port can be opened.
use fpga_emmc_card_reader.Base.{[], false, Bytes, ok, err, not_found, length, take, drop}
use fpga_emmc_card_reader.Transport.Script.{Script, script}
use fpga_emmc_card_reader.Ext4.Fs.{Host}
use fpga_emmc_card_reader.App.Task.{Desk}

abbrev no_volume : Host Script
no_volume = record {
  read_sectors = λ lba n s. (err not_found, s);
  write_sectors = λ lba d s. (err not_found, s);
  now = λ s. (ok 0, s);
  from_utf8_lossy = λ d. d;
  name_of = λ d. "";
  stack = 10;
}

-- A machine with one file, and a user who does not cancel.
abbrev pub bench : Bytes → Desk Script
bench file_data = record {
  link = script;
  open_fifo = λ s. (err not_found, s);
  open_serial = λ port baud s. (ok tt, s);
  file_len = λ path s. (ok (length file_data), s);
  read_file = λ path s. (ok file_data, s);
  read_file_at = λ path at n s. (ok (take n (drop at file_data)), s);
  create_file = λ path s. (ok tt, s);
  append_file = λ path d s. (ok tt, s);
  is_cancelled = λ s. (false, s);
  list_serial_ports = λ s. [];
  find_fifo_devices = λ s. [];
  nonce = λ s. (ok [], s);
  hmac = λ key d. [];
  from_utf8_lossy = λ d. "";
  from_utf16_lossy = λ d. "";
  volumes = no_volume;
}
