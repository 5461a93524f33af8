-- ===== src/Tests/Commands.antt =====
-- The command line, and a run from the device to the mounted volume.
use wamount.Base.{
  ℕ, ◌+◌, ◌/◌, ◌%◌, ◌≡◌, refl, arith, true, Option, some, none, List, [], ◌∷◌, Result, done, fault,
}
use wamount.Bytes.{fill, word, overrun, c_string, c_string_from}
use wamount.Apfs.Layout.{view, array}
use wamount.Apfs.Objects.{obj_phys, uuid, prange, omap_phys}
use wamount.Apfs.Superblocks.{
  nx_superblock, apfs_superblock, wrapped_meta_crypto_state, apfs_modified_by,
}
use wamount.Btree
use wamount.Volume.{Volume}
use wamount.Volume
use wamount.Volume.Ready.{IsReady}
use wamount.Disk.{
  Os, DiskReader, open_disk, open_device, open_handle, find_size, close, read_block, read_blocks,
  read_bytes, read_from,
}
use wamount.Container.{Container, accept, get_volume, load_volume, blocks_of}
use wamount.Container
use wamount.Container.Volumes.{IsNamed, slot}
use wamount.Winfsp.{WinFspApfs, mount, mount_named, mount_created}
use wamount.Winfsp
use wamount.Command.{
  Options, Ending, Run, Parsed, Expected, default_options, parse, mount_volume, start_container,
  start, disk_of,
}
use wamount.Command.Parsing.{arguments, parse-roundtrip}
use wamount.Command.Flow.{start-waits}
use wamount.Tests.Data.{container_byte}
use wamount.Tests.Mounts.{driver}

-- wamount -m E: -v 0 D:
abbrev pub options : Options
options = record {
  device_path = b'D' ∷ b':' ∷ [];
  mount_point = b'E' ∷ b':' ∷ [];
  volume_index = 0;
  debug = true;
}

parse-roundtrip_example :
    parse (λ digits. some 0) Expected.anything (arguments (λ n. b'0' ∷ []) options) default_options
    ≡ Parsed.goes_on options
parse-roundtrip_example =
    parse-roundtrip (λ digits. some 0) (λ n. b'0' ∷ []) options refl
      (λ e. absurd (omega (arith, e))) tt

-- A device that holds a container. The state is the position.
abbrev pub os : Os
os = record {
  State = ℕ;
  create_file = λ path s. (some 1, s);
  drive_geometry = λ h s. (some 1000000, s);
  get_file_size = λ h s. (none, s);
  set_file_pointer = λ h offset s. (true, offset);
  read_file = λ h count s. (
    some (record { size = count; byte = λ i. container_byte ((s + i) / 4096) ((s + i) % 4096) }),
    s,
  );
  close_handle = λ h s. s;
}

abbrev pub same : List ℕ → Option (List ℕ)
same name = some name

ending : Result (Run driver.State)
ending = start os driver same same options 0 ([], [])

-- What is held at the end; the first two arguments stand where the run ends otherwise.
abbrev container_of : Container → Ending driver.State → Container
container_of c (Ending.waits d c' volume w t) = c'
container_of c _ = c

abbrev pub held_container : Container → Result (Run driver.State) → Container
held_container c (done r) = container_of c r.ending
held_container c fault = c

abbrev volume_of : Volume → Ending driver.State → Volume
volume_of v (Ending.waits d c volume w t) = volume
volume_of v _ = v

abbrev pub held_volume : Volume → Result (Run driver.State) → Volume
held_volume v (done r) = volume_of v r.ending
held_volume v fault = v

abbrev pub reader : DiskReader
reader = record { handle = some 1; disk_size = 1000000; device_path = b'D' ∷ b':' ∷ [] }

abbrev pub file_system : WinFspApfs
file_system = record { file_system = some 4; mount_point = b'E' ∷ b':' ∷ [] }

-- The file system 4 exists and runs.
abbrev pub driver_state : List ℕ × List ℕ
driver_state = (4 ∷ [], 4 ∷ [])

pub container : Container
container = held_container Container.create ending

pub volume : Volume
volume = held_volume (Volume.create 0) ending

pub waiting :
    start os driver same same options 0 ([], [])
    ≡ done (record {
      ending = Ending.waits reader container volume file_system driver_state;
      overrun = 2688;
    })
unfolding ending container volume start start_container mount_volume disk_of open_disk open_device
    open_handle find_size close read_block read_blocks read_bytes read_from accept get_volume
    load_volume blocks_of mount mount_named mount_created fill word overrun c_string c_string_from
    view array obj_phys uuid prange omap_phys nx_superblock apfs_superblock
    wrapped_meta_crypto_state apfs_modified_by Container.init Container.create
    Container.read_superblock Container.read_object_map Container.read_block Volume.init
    Volume.create Volume.read_superblock Volume.read_object_map Volume.init_root_tree
    Volume.get_volume_name Btree.create Btree.init Winfsp.create
waiting = refl

start-waits_example : IsNamed container 0 × IsReady volume × (slot container 0 ≡ some volume)
start-waits_example =
    start-waits os driver same same options 0 ([], []) driver_state reader container volume
      file_system 2688 waiting
