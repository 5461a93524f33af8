-- ===== src/Disk/Files.antt =====
-- From a file to the disk: `readFile` over the reader, told by the records in the root and by the bytes
-- of the device.
use wamount.Base.{
  ℕ, ◌+◌, ◌-◌, ◌*◌, ◌%◌, ◌^◌, ◌≤◌, ◌<◌, ◌≡◌, ap, ◌∙◌, arith, min, true, false, some, done,
}
use wamount.Bytes.{Bytes}
use wamount.Blocks.{Blocks}
use wamount.Btree.{Btree, lookup}
use wamount.Btree.Lookup.{loaded}
use wamount.Btree.Records.{FirstOf, FirstOf-unique, IsRoot}
use wamount.Apfs.Types.{apfs_type_inode}
use wamount.Apfs.Sizes.{sizeof_j_file_extent_val}
use wamount.Apfs.KeyBytes.{IsRecordKey, IsExtentKey}
use wamount.Volume.{Volume, FileInfo}
use wamount.Volume.Inode.{inode_info, get_file_info}
use wamount.Volume.Directory.{fresh_info}
use wamount.Volume.Read.{read_file}
use wamount.Volume.Read.Extent.{read_file-range, read_at-found, extent_key, phys_block}
use wamount.Volume.Records.{get_file_info-FirstOf, extent-FirstOf, info_of}
use wamount.Disk.{Os, DiskReader}
use wamount.Disk.Contents.{Device}
use wamount.Disk.Filling.{blocks_of, read_extent_one_block}

-- The two records of a file in the root: its inode's, and that of the extent at an offset.
pub record HasFile (t : Btree) (blocks : Blocks) (inode offset : ℕ) (info : FileInfo)
    (extent : Bytes) : Type 0 where
  pub inode_record : Bytes
  pub inode_first :
      FirstOf
        (loaded blocks t.root_oid)
        (IsRecordKey (inode % 2 ^ 60) apfs_type_inode)
        (some inode_record)
  pub told : inode_info inode inode_record fresh_info ≡ done (some info)
  pub extent_first :
      FirstOf (loaded blocks t.root_oid) (IsExtentKey (inode % 2 ^ 60) offset) (some extent)
  pub whole : sizeof_j_file_extent_val ≤ extent.size

module _ (v : Volume) (t : Btree) (blocks : Blocks) (inode offset : ℕ) (info : FileInfo)
    (extent : Bytes) (tree : v.root_tree ≡ some t) (root : IsRoot t blocks)
    (file : HasFile t blocks inode offset info extent) where
  found_info : get_file_info v (some blocks) inode fresh_info ≡ done (some info)
  found_info =
      let (r, first, run) = get_file_info-FirstOf v t blocks inode fresh_info tree root in
      run ∙ ap (info_of inode fresh_info) (FirstOf-unique first file.inode_first) ∙ file.told

  found_extent :
      offset < 2 ^ 64 → lookup t (some (some blocks)) (extent_key inode offset) ≡ done (some extent)
  found_extent short =
      let (r, run, first) = extent-FirstOf t blocks inode offset root short in
      run ∙ ap done (FirstOf-unique first file.extent_first)

module _ (os : Os) (h : ℕ) (content : ℕ → ℕ) (device : Device os h content) (d : DiskReader)
    (s : os.State) (block_size : ℕ) (open_on : d.handle ≡ some h) where
  -- Over a reader that is open on a device, with a block size below 2^32 and not 0, on a volume
  -- whose tree has a well-formed root, a read of a file that the records in the root describe
  -- succeeds, where the first record with the inode's key gives the information of a file that is
  -- no directory, the first record of an extent at the very offset of the request is whole, and the
  -- request, from 1 to 2^32 - 1 bytes at an offset inside the file and below 2^64, once cut at the
  -- file's end, lies in one block that is read and whose place on the disk is below 2^64. As many
  -- bytes are returned as are left of the request, and byte i is the byte of the disk at phys *
  -- block_size + offset % block_size + i.
  pub read_file-content :
      (v : Volume) (t : Btree) (inode offset size : ℕ) (info : FileInfo) (extent : Bytes)
      → 0 < block_size
      → block_size < 2 ^ 32
      → 0 < size
      → size < 2 ^ 32
      → v.root_tree ≡ some t
      → IsRoot t (blocks_of os d s block_size)
      → HasFile t (blocks_of os d s block_size) inode offset info extent
      → info.is_directory ≡ false
      → offset < info.size
      → offset < 2 ^ 64
      → let n = min size (info.size - offset) in
        n + offset % block_size ≤ block_size
        → phys_block extent * block_size < 2 ^ 64
        → ((blocks_of os d s block_size).read_block (phys_block extent) block_size).succeeded ≡ true
        → (out : Bytes) × (read_file v (some (blocks_of os d s block_size)) inode offset size
            ≡ done (true, out))
          × (out.size ≡ n)
          × ((i : ℕ)
              → i < n
              → out.byte i ≡ content (phys_block extent * block_size + (offset % block_size + i)))
  read_file-content v t inode offset size info extent pos bb some_byte short tree root file kind
        inside below one fits ok =
      let blocks = blocks_of os d s block_size in
      let n : ℕ = min size (info.size - offset) in
      let found = found_info v t blocks inode offset info extent tree root file in
      let (out, run, sized, same) =
        read_extent_one_block os h content device d s block_size open_on (phys_block extent) offset
          n pos bb (omega arith) (omega arith) one fits ok in
      (
        out,
        read_file-range v t (some blocks) inode offset size info tree found kind inside
            ∙ read_at-found t (some blocks) inode offset n extent
                (found_extent v t blocks inode offset info extent tree root file below) file.whole
            ∙ run,
        sized,
        same,
      )
