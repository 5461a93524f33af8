-- ===== src/Command/Contents.antt =====
-- Read in a program that has mounted a volume: from the callback down to the bytes of the device.
use wamount.Base.{
  ℕ, ◌+◌, ◌-◌, ◌*◌, ◌%◌, ◌^◌, ◌≤◌, ◌<◌, ◌≡◌, refl, ap, arith, min, true, false, Option, some, List,
  done,
}
use wamount.Bytes.{Bytes}
use wamount.Blocks.{Blocks}
use wamount.Btree
use wamount.Btree.Records.{IsRoot}
use wamount.Volume.{Volume, FileInfo}
use wamount.Volume.Read.{read_file}
use wamount.Volume.Read.Extent.{phys_block}
use wamount.Disk.{Os, DiskReader}
use wamount.Disk.Contents.{Device}
use wamount.Disk.Filling
use wamount.Disk.Files.{HasFile, read_file-content}
use wamount.Container.{Container, blocks_of}
use wamount.Container
use wamount.Winfsp.{Driver, WinFspApfs, FileContext}
use wamount.Winfsp.Callbacks.{Status, read}
use wamount.Command.{Options, Ending, start, disk_of}
use wamount.Command.Flow.{start-waits}

-- A read that succeeds is passed on, with the number of its bytes.
read-passes :
    (volume : Volume) (container : Option Blocks) (context : FileContext) (offset length n : ℕ)
    (out : Bytes)
    → context.is_directory ≡ false
    → read_file volume container context.inode offset length ≡ done (true, out)
    → out.size ≡ n
    → n < 2 ^ 32
    → read volume container context offset length ≡ done (Status.success, some (n, out))
unfolding read
read-passes volume container context offset length n out file run sized short =
    let counted : out.size % 2 ^ 32 ≡ n = omega (arith, sized, short) in
    rw file (rw run (ap (λ (k : ℕ). done (Status.success, some (k, out))) counted))

module _ (os : Os) (driver : Driver) (widen prefix_of : List ℕ → Option (List ℕ)) (h : ℕ)
    (content : ℕ → ℕ) (device : Device os h content) where
  -- What the volumes of a container read while the device is in one state.
  abbrev pub volume_blocks : DiskReader → os.State → Container → Blocks
  volume_blocks d s c = blocks_of (disk_of os driver widen prefix_of d s) c

  same_blocks :
      (d : DiskReader) (s : os.State) (c : Container)
      → volume_blocks d s c ≡ Filling.blocks_of os d s c.block_size
  unfolding blocks_of disk_of Filling.blocks_of Container.read_block
  same_blocks d s c = refl

  -- In a program that has come to its endless loop, with its reader open on a device and blocks of
  -- less than 2^32 bytes and not of 0, a Read of from 1 to 2^32 - 1 bytes on a context that is no
  -- directory succeeds, where the volume's tree has a well-formed root, the first record in it with
  -- the inode's key gives the information of a file that is no directory, the offset is inside the
  -- file and below 2^64, the first record of an extent at the very offset is whole, and the
  -- request, once cut at the file's end, lies in one block that is read and whose place on the disk
  -- is below 2^64. The number reported is that of the bytes that are left of the request, and byte
  -- i is the byte of the disk at phys * block_size + offset % block_size + i.
  pub start-content :
      (o : Options) (s s1 : os.State) (t t' : driver.State) (d : DiskReader) (c : Container)
      (volume : Volume) (w : WinFspApfs) (lost : ℕ) (context : FileContext) (offset length : ℕ)
      (info : FileInfo) (extent : Bytes)
      → start os driver widen prefix_of o s t
        ≡ done (record { ending = Ending.waits d c volume w t'; overrun = lost })
      → d.handle ≡ some h
      → 0 < c.block_size
      → c.block_size < 2 ^ 32
      → 0 < length
      → length < 2 ^ 32
      → let tree = Btree.create volume.superblock.apfs_root_tree_oid in
        let blocks = volume_blocks d s1 c in
        IsRoot tree blocks
        → HasFile tree blocks context.inode offset info extent
        → info.is_directory ≡ false
        → context.is_directory ≡ false
        → offset < info.size
        → offset < 2 ^ 64
        → let n = min length (info.size - offset) in
          n + offset % c.block_size ≤ c.block_size
          → phys_block extent * c.block_size < 2 ^ 64
          → (blocks.read_block (phys_block extent) c.block_size).succeeded ≡ true
          → (out : Bytes) × (read volume (some blocks) context offset length
              ≡ done (Status.success, some (n, out)))
            × ((i : ℕ)
                → i < n
                → out.byte i
                  ≡ content (phys_block extent * c.block_size + (offset % c.block_size + i)))
  unfolding blocks_of disk_of Filling.blocks_of Container.read_block
  start-content o s s1 t t' d c volume w lost context offset length info extent e open_on pos bb
        some_byte short root file kind file_open inside below one fits ok =
      let (is_named, ready, held) =
        start-waits os driver widen prefix_of o s t t' d c volume w lost e in
      let (out, run, sized, same) =
        read_file-content os h content device d s1 c.block_size open_on volume
          (Btree.create volume.superblock.apfs_root_tree_oid) context.inode offset length info
          extent pos bb some_byte short ready.tree root file kind inside below one fits ok in
      (
        out,
        read-passes volume _ context offset length (min length (info.size - offset)) out file_open
            run sized (omega arith),
        same,
      )
