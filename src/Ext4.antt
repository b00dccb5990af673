-- ===== src/Ext4.antt =====
-- emmc-gui/crates/emmc-core/src/ext4: the checksums, the superblock and the group descriptors, the
-- directories and inodes, and the file system that the programs read and change.
pub mod Checksum
pub mod Superblock
pub mod Groups
pub mod Directory
pub mod Inode
pub mod Volume
pub mod Bitmaps
pub mod Entries
pub mod Fs
