-- ===== src/Volume/Read.antt =====
-- `APFSVolume::readFile`.
pub mod Extent
pub mod Size
use wamount.Base.{
  ℕ, ◌+◌, ◌-◌, ◌*◌, ◌/◌, ◌%◌, ◌^◌, min, Bool, true, false, not, Option, none, some, Result, done,
  fault, ◌>>=◌, ltb, leb, ◌==◌, if◌then◌else◌,
}
use wamount.Bytes.{Bytes, zeros, fill, window}
use wamount.Blocks.{Blocks}
use wamount.Btree.{Btree, lookup}
use wamount.Apfs.Types.{apfs_type_file_extent}
use wamount.Apfs.Layout.{view}
use wamount.Apfs.Records.{j_file_extent_val}
use wamount.Apfs.Keys.{make_key, extent_key_bytes}
use wamount.Apfs.Sizes.{sizeof_j_file_extent_val}
use wamount.Volume.{Volume, FileInfo}
use wamount.Volume.Inode.{get_file_info}
use wamount.Volume.Directory.{fresh_info}

-- What the call returns, and the bytes that it wrote to `buffer`, as many as `bytes_read` says.
abbrev pub Outcome : Type 0
Outcome = Bool × Bytes

abbrev pub refused : Outcome
refused = (false, zeros 0)

-- The numbers of `readFile`, all `uint64_t`.
unfoldable pub blocks_to_read : ℕ → ℕ → ℕ → ℕ
blocks_to_read read_size block_offset block_size =
    (read_size + block_offset + block_size - 1) % 2 ^ 64 / block_size

unfoldable pub temp_size : ℕ → ℕ → ℕ → ℕ
unfolding blocks_to_read
temp_size read_size block_offset block_size =
    blocks_to_read read_size block_offset block_size * block_size % 2 ^ 64

-- The part from `container_.lock()` on. A remainder or quotient by zero has no meaning.
unfoldable pub read_extent : Option Blocks → ℕ → ℕ → ℕ → Result Outcome
unfolding temp_size
read_extent none phys_block offset read_size = done refused
read_extent (some container) phys_block offset read_size =
    if container.block_size == 0 then fault else do
      let block_offset = offset % container.block_size
      let size = temp_size read_size block_offset container.block_size
      let reply = container.read_block phys_block size
      if not reply.succeeded then done refused else do
        bytes ← window (fill (zeros size) reply.delivered) block_offset read_size
        done (true, bytes)

-- The part from the lookup of the extent on.
unfoldable pub read_at : Btree → Option Blocks → ℕ → ℕ → ℕ → Result Outcome
read_at tree container inode offset read_size = do
  found ←
      lookup tree (some container) (extent_key_bytes (make_key inode apfs_type_file_extent) offset)
  elim found [
    | none ↦ done refused
    | some value ↦ if ltb value.size sizeof_j_file_extent_val then done refused else do
      ext_val ← view j_file_extent_val value 0
      read_extent container ext_val.phys_block_num offset read_size
  ]

unfoldable pub read_file : Volume → Option Blocks → ℕ → ℕ → ℕ → Result Outcome
read_file v container inode offset size = do
  found ← get_file_info v container inode fresh_info
  elim found [
    | none ↦ done refused
    | some info ↦
        if info.is_directory
        then done refused
        else if leb info.size offset
        then done (true, zeros 0)
        else elim v.root_tree [
          | none ↦ fault
          | some tree ↦ read_at tree container inode offset (min size (info.size - offset))
        ]
  ]
