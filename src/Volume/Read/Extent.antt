-- ===== src/Volume/Read/Extent.antt =====
-- How `readFile` turns a range of the file into blocks: what it asks the container for, that the copy
-- stays inside the temporary buffer, and which bytes come back.
use native.Mathlib.Nat.{div-add-mod', mod-lt, mod-eq_of_lt, div-eq_of_lt-le}
use wamount.Base.{
  ℕ, zero, suc, ◌+◌, ◌-◌, ◌*◌, ◌/◌, ◌%◌, ◌^◌, ◌≤◌, ◌<◌, ◌≡◌, refl, ap, ◌∙◌, arith, min, true, false,
  Option, some, done, le→leb, le→ltb, ==_ne, lt→ltb, lt→leb,
}
use wamount.Bytes.{Bytes, zeros, fill, region, window}
use wamount.Blocks.{Blocks, IsWhole}
use wamount.Btree.{Btree, lookup}
use wamount.Apfs.Types.{apfs_type_file_extent}
use wamount.Apfs.Layout.{view}
use wamount.Apfs.Records.{j_file_extent_val}
use wamount.Apfs.Sizes.{sizeof_j_file_extent_val}
use wamount.Apfs.Keys.{make_key, extent_key_bytes}
use wamount.Volume.{Volume, FileInfo}
use wamount.Volume.Inode.{get_file_info}
use wamount.Volume.Directory.{fresh_info}
use wamount.Volume.Read.{refused, blocks_to_read, temp_size, read_extent, read_at, read_file}

twice_of_more : (q b : ℕ) → b < q * b → 2 * b ≤ q * b
twice_of_more zero b h = absurd (omega arith)
twice_of_more (suc zero) b h = absurd (omega arith)
twice_of_more (suc (suc q)) b h = omega arith

-- A request from the file system: a length and a block size of 32 bits, and a block size that is not 0.
module _ (n offset b : ℕ) (nb : n < 2 ^ 32) (bb : b < 2 ^ 32) (pos : 0 < b) where
  abbrev start : ℕ
  start = offset % b

  start_below : start < b
  start_below = mod-lt offset pos

  blocks_value : blocks_to_read n start b ≡ (n + start + b - 1) / b
  unfolding blocks_to_read
  blocks_value = ap (λ (t : ℕ). t / b) (mod-eq_of_lt {m = 2 ^ 64} (omega (arith, start_below)))

  size_value : temp_size n start b ≡ (n + start + b - 1) / b * b
  unfolding temp_size
  size_value =
      ap (λ (t : ℕ). t * b % 2 ^ 64) blocks_value
      ∙ mod-eq_of_lt {m = 2 ^ 64} (omega (arith, start_below, div-add-mod' (n + start + b - 1) b))

  -- For a length below 2^32 and a block size between 1 and 2^32 - 1, the temporary buffer holds the
  -- range that is copied out of it, with less than a block to spare.
  pub temp_size_bounds : (n + start ≤ temp_size n start b) × (temp_size n start b < n + start + b)
  temp_size_bounds =
      let whole = div-add-mod' (n + start + b - 1) b in
      let part = mod-lt (n + start + b - 1) pos in
      (omega (arith, size_value, whole, part), omega (arith, size_value, whole, part))

  -- A range inside one block asks for that block.
  pub temp_size-one_block : 0 < n → n + start ≤ b → temp_size n start b ≡ b
  temp_size-one_block some_byte inside =
      size_value
      ∙ ap (λ (t : ℕ). t * b)
          (div-eq_of_lt-le {k = 1} b {m = n + start + b - 1} (omega arith) (omega arith))
      ∙ omega arith

  -- A range that goes past the end of a block asks for two blocks or more, as one block of that size.
  pub temp_size-many_blocks : b < n + start → 2 * b ≤ temp_size n start b
  temp_size-many_blocks past =
      let twice : 2 * b ≤ (n + start + b - 1) / b * b =
        twice_of_more ((n + start + b - 1) / b) b (omega (arith, temp_size_bounds, size_value)) in
      omega (arith, size_value)

fill-inside :
    (target source : Bytes) (k : ℕ) → k < source.size → (fill target source).byte k ≡ source.byte k
unfolding fill
fill-inside target source k h = rw (lt→ltb k source.size h)

-- What is left when everything before the read of the blocks has gone well: the copy is inside the
-- buffer, and byte `i` of the result is byte `offset % block_size + i` of what was read.
pub read_extent-bytes :
    (container : Blocks) (phys offset n : ℕ)
    → IsWhole container
    → 0 < container.block_size
    → container.block_size < 2 ^ 32
    → n < 2 ^ 32
    → let size = temp_size n (offset % container.block_size) container.block_size in
      (container.read_block phys size).succeeded ≡ true
      → (out : Bytes) × (read_extent (some container) phys offset n ≡ done (true, out))
        × (out.size ≡ n)
        × ((i : ℕ)
            → i < n
            → out.byte i
              ≡ (container.read_block phys size).delivered.byte (offset % container.block_size + i))
unfolding read_extent window fill
read_extent-bytes container phys offset n whole pos bb nb read =
    let block_offset : ℕ = offset % container.block_size in
    let size : ℕ = temp_size n block_offset container.block_size in
    let delivered : Bytes = (container.read_block phys size).delivered in
    let bounds = temp_size_bounds n offset container.block_size nb bb pos in
    let short : size < 2 ^ 64 = omega (arith, bounds, mod-lt offset pos) in
    let filled : delivered.size ≡ size = whole.delivers phys size short read in
    let room : block_offset + n ≤ size = omega (arith, bounds) in
    (
      region (fill (zeros size) delivered) block_offset n,
      rw (==_ne container.block_size 0 (omega arith), read, le→leb (block_offset + n) size room),
      refl,
      λ i h. fill-inside (zeros size) delivered (block_offset + i) (omega arith),
    )

-- The steps of `readFile` before the blocks are read.
module _ (v : Volume) (t : Btree) (container : Option Blocks) (inode offset size : ℕ)
    (info : FileInfo) (tree : v.root_tree ≡ some t)
    (found : get_file_info v container inode fresh_info ≡ done (some info)) where
  -- A directory is refused.
  pub read_file-directory :
      info.is_directory ≡ true → read_file v container inode offset size ≡ done refused
  unfolding read_file
  read_file-directory h = rw (found, h)

  -- At or past the end of the file nothing is read, and that is no error.
  pub read_file-end :
      info.is_directory ≡ false
      → info.size ≤ offset
      → read_file v container inode offset size ≡ done (true, zeros 0)
  unfolding read_file
  read_file-end h past = rw (found, h, le→leb info.size offset past)

  -- Otherwise the range is cut at the end of the file.
  pub read_file-range :
      info.is_directory ≡ false
      → offset < info.size
      → read_file v container inode offset size
        ≡ read_at t container inode offset (min size (info.size - offset))
  unfolding read_file
  read_file-range h inside = rw (found, h, lt→leb info.size offset inside) (rw (tree, read_file))

-- The key that an extent is looked up by: its offset has to be the very offset of the read.
abbrev pub extent_key : ℕ → ℕ → Bytes
extent_key inode offset = extent_key_bytes (make_key inode apfs_type_file_extent) offset

-- The block that an extent's record names.
unfoldable pub phys_block : Bytes → ℕ
phys_block value = (j_file_extent_val value 0).0.phys_block_num

pub read_at-found :
    (t : Btree) (container : Option Blocks) (inode offset n : ℕ) (value : Bytes)
    → lookup t (some container) (extent_key inode offset) ≡ done (some value)
    → sizeof_j_file_extent_val ≤ value.size
    → read_at t container inode offset n ≡ read_extent container (phys_block value) offset n
unfolding read_at view j_file_extent_val phys_block
read_at-found t container inode offset n value found h = rw (
  found,
  le→ltb value.size sizeof_j_file_extent_val h,
  le→leb sizeof_j_file_extent_val value.size h,
)

-- On a volume with a tree, over a container whose successful reads are whole and whose block size
-- is between 1 and 2^32 - 1, a request of less than 2^32 bytes at an offset inside a file that is
-- no directory, whose extent's record is found under the very offset and is long enough, and whose
-- blocks are read, succeeds: it returns as many bytes as were asked for, cut at the end of the
-- file, and byte i is byte offset % block_size + i of what was read at the block that the record
-- names.
pub read_file-bytes :
    (v : Volume) (t : Btree) (container : Blocks) (inode offset size : ℕ) (info : FileInfo)
    (value : Bytes)
    → IsWhole container
    → 0 < container.block_size
    → container.block_size < 2 ^ 32
    → size < 2 ^ 32
    → v.root_tree ≡ some t
    → get_file_info v (some container) inode fresh_info ≡ done (some info)
    → info.is_directory ≡ false
    → offset < info.size
    → lookup t (some (some container)) (extent_key inode offset) ≡ done (some value)
    → sizeof_j_file_extent_val ≤ value.size
    → let n = min size (info.size - offset) in
      let request = temp_size n (offset % container.block_size) container.block_size in
      let reply = container.read_block (phys_block value) request in
      reply.succeeded ≡ true
      → (out : Bytes) × (read_file v (some container) inode offset size ≡ done (true, out))
        × (out.size ≡ n)
        × ((i : ℕ) → i < n → out.byte i ≡ reply.delivered.byte (offset % container.block_size + i))
read_file-bytes v t container inode offset size info value whole pos bb sb tree found file inside
      extent long read =
    let n : ℕ = min size (info.size - offset) in
    let (out, run, sized, same) =
      read_extent-bytes container (phys_block value) offset n whole pos bb (omega arith) read in
    (
      out,
      read_file-range v t (some container) inode offset size info tree found file inside
          ∙ read_at-found t (some container) inode offset n value extent long
          ∙ run,
      sized,
      same,
    )
