-- ===== src/Fifo.antt =====
-- emmc-gui/crates/emmc-core/src/transport_fifo.rs: the FT245 FIFO behind an FT232H, with the two
-- status bytes that the chip puts before every USB packet and the buffer for bytes read too early.
-- The USB library is a parameter.
pub mod Strip
pub mod Buffer
pub mod Delivery
pub mod Refines
pub mod Exact
pub mod Stream
pub mod Sectors
pub mod Wire
mod Tests
use fpga_emmc_card_reader.Base.{
  ℕ, zero, suc, ◌+◌, ◌-◌, ◌*◌, ◌/◌, ◌%◌, min, max, [], ◌∷◌, ◌++◌, List, Bool, true, false, not,
  ◌&&◌, ◌||◌, if◌then◌else◌, ◌==◌, leb, ltb, length, take, drop, slice, Bytes, Outcome, ok, err,
  panic, Error, io, timed_out, Action, ◌>>=◌, ◌>>◌, pure, bail, u8, u16, bit_or,
}
use fpga_emmc_card_reader.Crc8.{crc8}
use fpga_emmc_card_reader.Transport.{Transport}

abbrev pub modem_status_size : ℕ
modem_status_size = 2

abbrev pub usb_hs_packet_size : ℕ
usb_hs_packet_size = 512

-- Requests and values of the FTDI chip.
abbrev pub sio_reset : ℕ
sio_reset = 0x00

abbrev pub sio_set_latency_timer : ℕ
sio_set_latency_timer = 0x09

abbrev pub sio_set_bitmode : ℕ
sio_set_bitmode = 0x0B

abbrev pub sio_reset_sio : ℕ
sio_reset_sio = 0

abbrev pub sio_reset_purge_rx : ℕ
sio_reset_purge_rx = 1

abbrev pub sio_reset_purge_tx : ℕ
sio_reset_purge_tx = 2

-- What `read_bulk` gives: the bytes of a transfer, a timeout, or another error.
pub data Transfer : Type 0 where
  arrived : Bytes → Transfer
  usb_timeout : Transfer
  usb_error : ℕ → Transfer

-- The calls of the USB library, on a state `U` of the bus and of the clock.
pub record Usb (U : Type 0) : Type 0 where
  -- the size of the buffer and the timeout in milliseconds
  pub read_bulk : ℕ → ℕ → U → Transfer × U
  -- how many bytes were written
  pub write_bulk : Bytes → Action U ℕ
  -- the request and the value
  pub write_control : ℕ → ℕ → Action U Unit
  -- How many polls of so many milliseconds fit in before a deadline of so many seconds is over.
  pub polls : ℕ → ℕ → U → ℕ

pub record FifoTransport (U : Type 0) : Type 0 where
  pub bus : U
  -- in seconds
  pub timeout : ℕ
  pub read_buf : Bytes
  pub read_pos : ℕ

-- The loop over the packets of a transfer: each starts with the status bytes. With as much fuel as
-- there are bytes it ends, since each pass takes some.
unfoldable pub strip_status : ℕ → Bytes → Bytes
strip_status zero raw = []
strip_status (suc fuel) [] = []
strip_status (suc fuel) (b ∷ raw) =
    slice modem_status_size usb_hs_packet_size (b ∷ raw)
    ++ strip_status fuel (drop usb_hs_packet_size (b ∷ raw))

-- The size of the USB buffer for so many bytes.
unfoldable pub usb_read_size : ℕ → ℕ
usb_read_size max_data =
    min
      ((max_data + (usb_hs_packet_size - modem_status_size) - 1)
        / (usb_hs_packet_size - modem_status_size)
        * usb_hs_packet_size)
      (64 * usb_hs_packet_size)

unfoldable pub payload_of : Transfer → Outcome Bytes
unfolding strip_status
payload_of (arrived raw) = ok (strip_status (length raw) raw)
payload_of usb_timeout = ok []
payload_of (usb_error e) = err (io e)

-- `consume_buffered`: the bytes that were moved, at most so many.
unfoldable pub consume_buffered : {U : Type 0} → ℕ → FifoTransport U → Bytes × FifoTransport U
consume_buffered len s =
    let available = length s.read_buf - s.read_pos in
    let n = min len available in
    let pos = s.read_pos + n in
    if available == 0
    then ([], s)
    else if pos == length s.read_buf
    then (slice s.read_pos pos s.read_buf, record s { read_buf = []; read_pos = 0 })
    else (slice s.read_pos pos s.read_buf, record s { read_pos = pos })

-- What `fill_buffer` makes of the bytes that came.
unfoldable pub add_bytes : {U : Type 0} → Bytes → FifoTransport U → FifoTransport U
add_bytes [] s = s
add_bytes (b ∷ bytes) s = record s {
  read_buf = drop s.read_pos s.read_buf ++ b ∷ bytes;
  read_pos = 0;
}

module _ {U : Type 0} (usb : Usb U) where
  -- An action on the bus.
  abbrev pub on_bus : {A : Type 0} → Action U A → Action (FifoTransport U) A
  on_bus m s = let (r, u) = m s.bus in (r, record s { bus = u })

  unfoldable pub ftdi_read : ℕ → ℕ → Action U Bytes
  unfolding payload_of usb_read_size
  ftdi_read max_data ms u =
      let (transfer, u') = usb.read_bulk (usb_read_size max_data) ms u in (payload_of transfer, u')

  -- Each pass of the loop writes some bytes of what is left; a device that takes none is asked
  -- again. The model panics where the passes are used up.
  unfoldable pub ftdi_write : ℕ → Bytes → Action U Unit
  ftdi_write fuel [] = pure tt
  ftdi_write zero (b ∷ data') = λ u. (panic, u)
  ftdi_write (suc fuel) (b ∷ data') =
      usb.write_bulk (b ∷ data') >>= λ n. ftdi_write fuel (drop n (b ∷ data'))

  unfoldable pub fill_buffer : ℕ → ℕ → Action (FifoTransport U) Unit
  unfolding ftdi_read add_bytes
  fill_buffer hint ms = do
    bytes ← on_bus (ftdi_read (max hint 64) ms)
    λ s. (ok tt, add_bytes bytes s)

  -- The bytes that a poll moved, or else the loop's next pass.
  unfoldable pub moved_or :
      Action (FifoTransport U) Bytes → Bytes × FifoTransport U → Outcome Bytes × FifoTransport U
  moved_or again ([], s) = again s
  moved_or again (b ∷ bytes, s) = (ok (b ∷ bytes), s)

  -- The loop of `read` over an empty buffer, with so many polls before the deadline.
  unfoldable pub read_loop : ℕ → ℕ → Action (FifoTransport U) Bytes
  unfolding fill_buffer consume_buffered moved_or
  read_loop zero len =
      fill_buffer len 50 >>= λ _ s. moved_or (bail timed_out) (consume_buffered len s)
  read_loop (suc left) len =
      fill_buffer len 50 >>= λ _ s. moved_or (read_loop left len) (consume_buffered len s)

  unfoldable pub fifo_read : ℕ → Action (FifoTransport U) Bytes
  unfolding read_loop moved_or consume_buffered
  fifo_read len s =
      moved_or (λ s'. read_loop (usb.polls s'.timeout 50 s'.bus) len s') (consume_buffered len s)

  -- What a pass of `read_exact` does with the bytes of a poll: `again` is the loop, told how many
  -- polls are left, how many bytes are wanted and which are there.
  unfoldable pub after_poll :
      (ℕ → ℕ → Bytes → Action (FifoTransport U) Bytes)
      → ℕ
      → ℕ
      → Bytes
      → Bytes × FifoTransport U
      → Outcome Bytes × FifoTransport U
  after_poll again zero left filled ([], s) = (err timed_out, s)
  after_poll again (suc polls) left filled ([], s) = again polls left filled s
  after_poll again polls left filled (b ∷ bytes, s) =
      again polls (left - length (b ∷ bytes)) (filled ++ b ∷ bytes) s

  unfoldable pub after_buffer :
      (ℕ → ℕ → Bytes → Action (FifoTransport U) Bytes)
      → ℕ
      → ℕ
      → Bytes
      → Bytes × FifoTransport U
      → Outcome Bytes × FifoTransport U
  unfolding fill_buffer consume_buffered after_poll
  after_buffer again polls left filled ([], s) =
      (fill_buffer left 100 >>= λ _ s'.
      after_poll again polls left filled (consume_buffered left s'))
        s
  after_buffer again polls left filled (b ∷ bytes, s) =
      again polls (left - length (b ∷ bytes)) (filled ++ b ∷ bytes) s

  -- The loop of `read_exact`. A pass takes a byte or uses up a poll, so that as many passes as
  -- there are of both together are enough; the model panics where they are used up.
  unfoldable pub exact_loop : ℕ → ℕ → ℕ → Bytes → Action (FifoTransport U) Bytes
  unfolding after_buffer consume_buffered
  exact_loop fuel polls zero filled s = (ok filled, s)
  exact_loop zero polls (suc left) filled s = (panic, s)
  exact_loop (suc fuel) polls (suc left) filled s =
      after_buffer (exact_loop fuel) polls (suc left) filled (consume_buffered (suc left) s)

  unfoldable pub fifo_read_exact : ℕ → Action (FifoTransport U) Bytes
  unfolding exact_loop
  fifo_read_exact len s =
      let polls = usb.polls s.timeout 100 s.bus in exact_loop (len + polls) polls len [] s

  unfoldable pub fifo_purge_input : Action (FifoTransport U) Unit
  fifo_purge_input s =
      on_bus (usb.write_control sio_reset sio_reset_purge_rx)
        (record s { read_buf = []; read_pos = 0 })

  unfoldable pub fifo : Transport (FifoTransport U)
  unfolding fifo_read fifo_read_exact fifo_purge_input ftdi_write
  fifo = record {
    write_all = λ data'. on_bus (ftdi_write (length data') data');
    flush = pure tt;
    read = fifo_read;
    read_exact = fifo_read_exact;
    set_timeout = λ seconds s. (ok tt, record s { timeout = seconds });
    purge_input = fifo_purge_input;
    is_fifo = λ s. true;
  }

  -- `ftdi_reset`, `ftdi_set_bitmode` and `ftdi_set_latency`.
  unfoldable pub ftdi_reset : Action U Unit
  ftdi_reset = usb.write_control sio_reset sio_reset_sio

  unfoldable pub ftdi_set_bitmode : ℕ → ℕ → Action U Unit
  ftdi_set_bitmode mask mode = usb.write_control sio_set_bitmode (bit_or (u16 (mode * 256)) mask)

  unfoldable pub ftdi_set_latency : ℕ → Action U Unit
  ftdi_set_latency ms = usb.write_control sio_set_latency_timer ms

  -- The result of a call that is thrown away, `let _ = …`.
  abbrev pub ignored : {A : Type 0} → Outcome A × U → Outcome (Unit {0}) × U
  ignored (ok _, u) = (ok tt, u)
  ignored (err _, u) = (ok tt, u)
  ignored (panic, u) = (panic, u)

  abbrev ping_packet : Bytes
  ping_packet = 0xAA ∷ 0x01 ∷ 0x00 ∷ 0x00 ∷ crc8 (0x01 ∷ 0x00 ∷ 0x00 ∷ []) ∷ []

  -- What a look for the answer to a PING found: nothing, or bytes, after which the rest is drained.
  unfoldable pub warm_or : Action U Unit → Outcome Bytes × U → Outcome (Unit {0}) × U
  unfolding ftdi_read
  warm_or again (ok [], u) = again u
  warm_or again (ok (b ∷ bytes), u) = ignored (ftdi_read 512 10 u)
  warm_or again (err e, u) = again u
  warm_or again (panic, u) = (panic, u)

  unfoldable pub await_answer : ℕ → Action U Unit → Action U Unit
  unfolding warm_or ftdi_read
  await_answer zero again = again
  await_answer (suc looks) again = λ u. warm_or (await_answer looks again) (ftdi_read 64 10 u)

  unfoldable pub warm_rounds : ℕ → Action U Unit
  unfolding await_answer ftdi_read ftdi_write
  warm_rounds zero = λ u. ignored (ftdi_read 512 50 u)
  warm_rounds (suc rounds) = do
    (λ u. ignored (ftdi_write 5 ping_packet u))
    await_answer 20 (warm_rounds rounds)

  unfoldable pub warmup : Action U Unit
  unfolding warm_rounds ftdi_read
  warmup = do (λ u. ignored (ftdi_read 512 50 u)); warm_rounds 5

  -- The set-up of a device that is opened for the first time.
  unfoldable pub initialise : Action U Unit
  unfolding ftdi_reset ftdi_set_bitmode ftdi_set_latency warmup
  initialise = do
    ftdi_reset
    ftdi_set_bitmode 0x00 0x00
    ftdi_set_latency 2
    usb.write_control sio_reset sio_reset_purge_rx
    usb.write_control sio_reset sio_reset_purge_tx
    warmup

  -- A cached device is only purged and drained.
  unfoldable pub reuse : Action U Unit
  unfolding ftdi_read
  reuse = do
    usb.write_control sio_reset sio_reset_purge_rx
    usb.write_control sio_reset sio_reset_purge_tx
    (λ u. ignored (ftdi_read 4096 20 u))

  unfoldable pub opened : U → FifoTransport U
  opened u = record { bus = u; timeout = 2; read_buf = []; read_pos = 0 }
