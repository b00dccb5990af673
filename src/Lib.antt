-- ===== src/Lib.antt =====
-- The host side of the FPGA eMMC card reader: the Rust crates that talk to the FPGA over a UART or
-- an FT245 FIFO, and what they read off a card.
--
-- A command is a packet `AA cmd len_h len_l payload crc8`, a response `55 cmd status len_h len_l
-- payload crc8`. `EmmcConnection` writes the one and reads the other through the trait `Transport`;
-- the RPMB sessions and all file system code go through `EmmcConnection`.
--
-- Files and the code they model (paths from the repository's root):
--   Crc8            `crc8` of emmc-gui/crates/emmc-core/src/protocol.rs
--   Transport       the trait of emmc-gui/crates/emmc-core/src/transport.rs
--   Protocol.Ids    the command and status numbers of protocol.rs
--   Protocol.Packet `send_command_no_recv`, `recv_response`, `send_command` of protocol.rs
--   Protocol.Sectors  `read_sectors`, `write_sectors` and the halves of a pipelined write
--   Protocol.Status `ControllerStatus` and the names of its states
--   Protocol.Commands  every other method of `EmmcConnection`
--   Rpmb            emmc-gui/crates/emmc-core/src/rpmb.rs
--   CardInfo        emmc-gui/crates/emmc-core/src/card_info.rs
--   Ext4.Checksum   emmc-gui/crates/emmc-core/src/ext4/checksum.rs
--   Ext4.Superblock, Ext4.Groups  emmc-gui/crates/emmc-core/src/ext4/superblock.rs
--   Ext4.Directory  emmc-gui/crates/emmc-core/src/ext4/directory.rs
--   Ext4.Inode      emmc-gui/crates/emmc-core/src/ext4/inode.rs
--   Ext4.Volume, Ext4.Bitmaps, Ext4.Entries  what ext4/mod.rs and ext4/file_ops.rs do to bytes: the
--                   fields of an inode, a bitmap, a descriptor, a directory block
--   Ext4.Fs         `Ext4Fs` of ext4/mod.rs and ext4/file_ops.rs: reading and writing blocks, inodes
--                   and extent trees; its child Files has directories, files and paths, and its child
--                   Create has allocation and creation
--   Partition       emmc-gui/crates/emmc-core/src/partition.rs
--   Fifo            `FifoTransport` of emmc-gui/crates/emmc-core/src/transport_fifo.rs
--   Adapter         emmc-programmer/crates/programmer-fpga/src/adapter.rs, with the result types of
--                   emmc-programmer/crates/programmer-hal/src/traits.rs
--   App             the threads of emmc-gui/crates/emmc-app/src/operations.rs: Message has
--                   `WorkerMessage`, Task the threads as such, Card, Access, Connecting, Restoring,
--                   Volumes and HexDump the operations, Job the list of all that the window starts,
--                   Bench a machine for examples, Connecting.Rates the speeds that are told;
--                   State is emmc-gui/crates/emmc-app/src/state.rs, and App itself `with_retry` of
--                   protocol.rs and the size of the chunks
--   Gui             `process_messages` of emmc-gui/crates/emmc-gui/src/app.rs; Dispatch has
--                   `dispatch_pending_action`, Update the keys and the keepalive, Panels and Browser
--                   the buttons of emmc-gui/crates/emmc-gui/src/panels, Strings what these use of
--                   Rust's strings
--   Engine.Command  emmc-programmer/crates/programmer-engine/src/command.rs
--   Engine.Speed, Engine.Hex  profiles, tabs and the hex editor of
--                   emmc-programmer/crates/programmer-engine/src/state.rs
--   Engine.Image    emmc-programmer/crates/programmer-engine/src/image.rs and verify.rs
--   Base            lists, words and bytes, outcomes, bit operations
--
-- How the code is rendered. A method of `EmmcConnection` is an action on the state of its link: it
-- takes a state and gives an outcome and the next state. An outcome is a value, an error (`bail!`
-- or `?`, with the numbers of the message and not its words) or a panic. A byte is a number below
-- 256; a word of w bits is a number that wraps at 2^w, as in a release build, which has no overflow
-- checks. A method of the `Transport` is a parameter. Theorems about runs assume the record
-- `IsStream`: bytes come in the order sent, none is lost while awaited, and writes succeed; the
-- scripted link of Transport.Script is a transport that satisfies it, and so is the FIFO over a USB
-- link that delivers (Fifo.Stream). An `Ext4Fs` works on a `Host`: the sectors of a connection, a
-- clock and the decoding of text. Its theorems assume of a host that reads give the sectors that
-- were written (`IsServing`, `IsMemory`), which the card of Ext4.Fs.Memory satisfies. The theorems
-- about a whole restore or dump assume a machine whose port and files work (`IsReady`,
-- `IsDumping`); the tests beside them have one.
--
-- A thread (`Task`) is an action that also gives the messages it sends, in order; `Desk` is what it
-- asks of the machine: the ports, the connection, the files, the user's flag. The window takes the
-- messages one by one (`process_messages`), asks before it acts (a dialog with the text of an
-- action), and starts the thread that the text names. Texts that are only shown are lists of
-- pieces.
--
-- Fuel. `write_loop` counts down the number of sectors, and each pass sends at least one, so that
-- the count is enough; if it were used up the model would panic. `wait_header` counts the 4096
-- bytes the source itself allows to be skipped. `entries_from` counts down from the size of the
-- block and gives `none` if that is used up; each pass moves on by at least one byte; so do
-- `named_from` and `last_entry`. The loops of the adapter count down the sectors, each pass does at
-- least one. A deadline of the FIFO is a number of polls; `exact_loop` has as much fuel as bytes
-- and polls together, and each pass uses up one or the other; `ftdi_write` has as much as bytes.
-- `resolve_extent_indices` follows a tree on the disk without a bound in the source; the model
-- panics where the levels exceed `stack`, a parameter. The loops of the threads get as many passes
-- as there are sectors; where these are used up the model panics, which stands for a loop that goes
-- on forever.
--
-- Not modelled: opening ports and lists of ports, finding a USB device and the cache of its handle,
-- timeouts and waits in time, log messages and the checksums that are compared only for one,
-- HMAC-SHA256 and random bytes (parameters), sizes for display (floating point), the chip database,
-- the operations of programmer-engine (threads and channels around the adapter), the drawing of
-- the windows and the front end of the programmer, the command line tool, the FPGA itself.
pub mod Base
pub mod Crc8
pub mod Transport
pub mod Protocol
pub mod Rpmb
pub mod Ext4
pub mod Engine
pub mod CardInfo
pub mod Fifo
pub mod Gui
pub mod Adapter
pub mod Partition
pub mod App
