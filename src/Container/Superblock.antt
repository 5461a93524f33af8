-- ===== src/Container/Superblock.antt =====
-- Reading the container's superblock: the buffer is that of the struct, and the read that of a block.
use mathlib.Core.Bool.{false≢true}
use wamount.Base.{
  ℕ, ◌^◌, ◌<◌, ◌≡◌, refl, ap, sym, ◌∙◌, arith, true, false, done, le→leb, Bool-cases,
  done-injective, ==_iff, ◌==◌, inl, inr,
}
use wamount.Bytes.{Bytes, zeros, fill, overrun}
use wamount.Apfs.Types.{nx_magic, apfs_block_size}
use wamount.Apfs.Layout.{view, array}
use wamount.Apfs.Objects.{obj_phys, uuid, prange}
use wamount.Apfs.Superblocks.{NxSuperblock, nx_superblock}
use wamount.Apfs.Sizes.{sizeof_nx_superblock}
use wamount.Container.{Container, Disk, Report, read_block, accept, read_superblock}

-- A read of the disk that succeeds has delivered all that was asked for.
abbrev pub IsWholeDisk : Disk → Type 0
IsWholeDisk disk =
    (block size : ℕ)
    → size < 2 ^ 64
    → (disk block size).succeeded ≡ true
    → (disk block size).delivered.size ≡ size

superblock_inside :
    (b : Bytes)
    → b.size ≡ sizeof_nx_superblock
    → view nx_superblock b 0 ≡ done (nx_superblock b 0).0
unfolding view nx_superblock obj_phys uuid prange array
superblock_inside b h = rw (le→leb sizeof_nx_superblock b.size (omega arith))

overrun_value :
    (b : Bytes) → b.size ≡ apfs_block_size → overrun (zeros sizeof_nx_superblock) b ≡ 2688
unfolding overrun
overrun_value b h = omega arith

-- What a superblock read of block 0 makes of the container.
unfoldable pub on_disk : Disk → NxSuperblock
on_disk disk =
    (nx_superblock (fill (zeros sizeof_nx_superblock) (disk 0 apfs_block_size).delivered) 0).0

accept-true :
    (c : Container) (superblock : NxSuperblock) (lost : ℕ)
    → (accept c superblock lost).returned ≡ true
    → (superblock.nx_magic ≡ nx_magic)
      × (accept c superblock lost ≡ record {
        state = record c {
          superblock = superblock;
          block_size = superblock.nx_block_size;
          block_count = superblock.nx_block_count;
        };
        returned = true;
        overrun = lost;
      })
unfolding accept
accept-true c superblock lost ok = elim (Bool-cases (superblock.nx_magic == nx_magic)) [
  | inl e ↦ ((==_iff _ _).0 e, rw e)
  | inr e ↦ absurd (false≢true (rw e at ok))
]

-- Block 0 as it stands in the buffer of the superblock.
buffered : Disk → Bytes
buffered disk = fill (zeros sizeof_nx_superblock) (disk 0 apfs_block_size).delivered

buffered_size : (disk : Disk) → (buffered disk).size ≡ sizeof_nx_superblock
unfolding buffered fill
buffered_size disk = refl

pub read_superblock-read :
    (disk : Disk) (c : Container)
    → (disk 0 apfs_block_size).succeeded ≡ true
    → read_superblock disk c
      ≡ done (
          accept c
            (on_disk disk)
            (overrun (zeros sizeof_nx_superblock) (disk 0 apfs_block_size).delivered))
unfolding read_superblock read_block on_disk buffered
read_superblock-read disk c read = rw (read, superblock_inside (buffered disk) (buffered_size disk))

read_superblock-failed :
    (disk : Disk) (c : Container) (report : Report)
    → (disk 0 apfs_block_size).succeeded ≡ false
    → read_superblock disk c ≡ done report
    → report.returned ≡ false
unfolding read_superblock read_block
read_superblock-failed disk c report failed e =
    ap (λ (r : Report). r.returned) (sym (done-injective (rw failed at e)))

-- A reading that returns true has found the magic number, and has taken the block size and the number
-- of blocks from the disk; it has also written 2688 bytes past the end of its buffer.
pub read_superblock-true :
    (disk : Disk) (c : Container) (report : Report)
    → IsWholeDisk disk
    → read_superblock disk c ≡ done report
    → report.returned ≡ true
    → ((on_disk disk).nx_magic ≡ nx_magic)
      × (report ≡ record {
        state = record c {
          superblock = on_disk disk;
          block_size = (on_disk disk).nx_block_size;
          block_count = (on_disk disk).nx_block_count;
        };
        returned = true;
        overrun = 2688;
      })
read_superblock-true disk c report whole e ok =
    elim (Bool-cases (disk 0 apfs_block_size).succeeded) [
      | inr failed ↦ absurd (false≢true (sym (read_superblock-failed disk c report failed e) ∙ ok))
      | inl read ↦
          let lost : ℕ = overrun (zeros sizeof_nx_superblock) (disk 0 apfs_block_size).delivered in
          let same : accept c (on_disk disk) lost ≡ report =
            done-injective (sym (read_superblock-read disk c read) ∙ e) in
          let (magic, all) =
            accept-true c (on_disk disk) lost (ap (λ (r : Report). r.returned) same ∙ ok) in
          (
            magic,
            sym same
                ∙ all
                ∙ ap
                    (λ (n : ℕ). record {
                      state = record c {
                        superblock = on_disk disk;
                        block_size = (on_disk disk).nx_block_size;
                        block_count = (on_disk disk).nx_block_count;
                      };
                      returned = true;
                      overrun = n;
                    })
                    (overrun_value (disk 0 apfs_block_size).delivered
                      (whole 0 apfs_block_size (omega arith) read)),
          )
    ]
