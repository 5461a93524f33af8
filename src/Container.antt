-- ===== src/Container.antt =====
-- src/apfs/container.h and container.cpp. The disk is a parameter, the answers of its reader; `Disk`
-- shows that the reader gives such answers. The container is alive through every call below.
pub mod Superblock
pub mod Volumes
pub mod Fresh
pub mod Starting
pub mod Started
use wamount.Base.{
  ℕ, zero, suc, ◌+◌, ◌-◌, ◌%◌, ◌^◌, bit_and, Bool, true, false, not, ◌||◌, Option, none, some, List,
  [], ◌∷◌, Result, done, fault, ◌>>=◌, ltb, leb, ◌==◌, if◌then◌else◌, get_or, set, pad,
}
use wamount.Bytes.{Bytes, zeros, fill, overrun}
use wamount.Blocks.{Blocks, Reply}
use wamount.Apfs.Types.{apfs_block_size, nx_magic, nx_max_file_systems}
use wamount.Apfs.Layout.{view}
use wamount.Apfs.Objects.{OmapPhys, omap_phys}
use wamount.Apfs.Superblocks.{NxSuperblock, nx_superblock}
use wamount.Apfs.Sizes.{sizeof_nx_superblock, sizeof_omap_phys}
use wamount.Volume.{Volume}
use wamount.Volume

-- `volumes` is a vector of shared pointers, null where a volume is not loaded. No operation changes a
-- volume once its `init` has run, so that the value stands for what the pointer points to.
pub record Container : Type 0 where
  pub superblock : NxSuperblock
  pub block_size : ℕ
  pub block_count : ℕ
  pub container_omap : OmapPhys
  pub volumes : List (Option Volume)

-- `disk_->readBlock(block_num, buffer, size)`
abbrev pub Disk : Type 0
Disk = ℕ → ℕ → Reply

unfoldable pub create : Container
create = record {
  superblock = (nx_superblock (zeros sizeof_nx_superblock) 0).0;
  block_size = 0;
  block_count = 0;
  container_omap = (omap_phys (zeros sizeof_omap_phys) 0).0;
  volumes = [];
}

unfoldable pub read_block : Disk → ℕ → ℕ → Reply
read_block disk block_num size = disk block_num size

-- What the volumes of the container see of it.
unfoldable pub blocks_of : Disk → Container → Blocks
unfolding read_block
blocks_of disk c = record { block_size = c.block_size; read_block = read_block disk }

-- What a call has done to the container, what it returns, and how many bytes it has written past the
-- end of a buffer. Where that is not 0 the program has written over memory of the heap that belongs to
-- something else, and what it does then rests on what was there.
pub record Report : Type 0 where
  pub state : Container
  pub returned : Bool
  pub overrun : ℕ

-- `readSuperblock` once the struct is filled: the magic number, and the two members that are taken over.
unfoldable pub accept : Container → NxSuperblock → ℕ → Report
accept c superblock lost =
    let c1 : Container = record c { superblock = superblock } in
    if not (superblock.nx_magic == nx_magic)
    then record { state = c1; returned = false; overrun = lost }
    else record {
      state = record c1 {
        block_size = superblock.nx_block_size;
        block_count = superblock.nx_block_count;
      };
      returned = true;
      overrun = lost;
    }

-- The buffer has the size of the struct, and the read is one of a block.
unfoldable pub read_superblock : Disk → Container → Result Report
unfolding accept
read_superblock disk c = do
  let buffer = zeros sizeof_nx_superblock
  let reply = read_block disk 0 apfs_block_size
  let lost = overrun buffer reply.delivered
  if not reply.succeeded
      then done (record { state = c; returned = false; overrun = lost })
      else (view nx_superblock (fill buffer reply.delivered) 0 >>= λ superblock.
          done (accept c superblock lost))

-- The type of the object is looked at for a warning alone.
unfoldable pub read_object_map : Disk → Container → Result (Container × Bool)
read_object_map disk c =
    if c.superblock.nx_omap_oid == 0
    then done (c, false)
    else let reply = read_block disk c.superblock.nx_omap_oid c.block_size in
      if not reply.succeeded then done (c, false) else do
        omap ← view omap_phys (fill (zeros c.block_size) reply.delivered) 0
        done (record c { container_omap = omap }, true)

unfoldable pub init : Disk → Container → Result Report
init disk c = do
  report ← read_superblock disk c
  if not report.returned then done report else do
    (c2, mapped) ← read_object_map disk report.state
    done (record { state = c2; returned = mapped; overrun = report.overrun })

-- The loop over `nx_fs_oid`, which has NX_MAX_FILE_SYSTEMS items.
unfoldable pub count_volumes : List ℕ → ℕ
count_volumes [] = 0
count_volumes (oid ∷ oids) = let rest = count_volumes oids in if oid == 0 then rest else suc rest

unfoldable pub get_volume_count : Container → ℕ
unfolding count_volumes
get_volume_count c = count_volumes c.superblock.nx_fs_oid

-- `getVolume` from the resize on. A volume that fails leaves the vector as it was resized to.
unfoldable pub load_volume : Disk → Container → ℕ → Result (Container × Option Volume)
load_volume disk c index =
    let c1 : Container = record c { volumes = pad c.volumes (suc index) none } in
    let volume = Volume.create (get_or c.superblock.nx_fs_oid index 0) in
    do
      (volume', ready) ← Volume.init volume (some (blocks_of disk c1))
      if not ready
          then done (c1, none)
          else done (record c1 { volumes = set c1.volumes index (some volume') }, some volume')

-- `none` is the null pointer. An index past the vector's end has no volume yet.
unfoldable pub get_volume : Disk → Container → ℕ → Result (Container × Option Volume)
unfolding load_volume
get_volume disk c index =
    let load = load_volume disk c index in
    if leb nx_max_file_systems index || get_or c.superblock.nx_fs_oid index 0 == 0
    then done (c, none)
    else elim (get_or c.volumes index none) [ some volume ↦ done (c, some volume) | none ↦ load ]

-- The object map is not consulted: the identifier is the address. It always returns true.
unfoldable pub get_object_physical_address : Container → ℕ → ℕ → ℕ
get_object_physical_address c oid xid = oid
