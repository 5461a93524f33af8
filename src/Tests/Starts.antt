-- ===== src/Tests/Starts.antt =====
-- A run that gets through, a signal that ends it, and a name that is asked for.
use wamount.Base.{ℕ, ◌≡◌, refl, arith, true, some, none, [], ◌∷◌, done}
use wamount.Bytes.{fill, word}
use wamount.Apfs.Layout.{array}
use wamount.Apfs.Objects.{obj_phys, uuid, prange}
use wamount.Apfs.Superblocks.{
  nx_superblock, apfs_superblock, wrapped_meta_crypto_state, apfs_modified_by,
}
use wamount.Volume.Directory.{fresh_info}
use wamount.Volume.Starting.{superblock_at}
use wamount.Disk.{
  open_disk, open_device, open_handle, find_size, close, read_block, read_blocks, read_bytes,
  read_from,
}
use wamount.Container.{Container, Disk, blocks_of}
use wamount.Container
use wamount.Container.Superblock.{on_disk}
use wamount.Container.Starting.{HasContainer}
use wamount.Container.Volumes.{stored}
use wamount.Winfsp.{WinFspApfs}
use wamount.Winfsp.Callbacks.{Status, open_file, security_by_name}
use wamount.Winfsp.Mounting.{IsMatched, is_mounted}
use wamount.Command.{Ending, start, disk_of}
use wamount.Command.Overrun.{start-overrun}
use wamount.Command.Signals.{Signal, handle_signal, start-handle_signal}
use wamount.Command.Reaching.{
  Accepts, IsVolume, brought_up, volume_on, name_on, mounted_on, mounted_state, start-IsVolume,
}
use wamount.Command.Names.{start-open_file}
use wamount.Tests.Commands.{
  os, same, options, reader, file_system, driver_state, container, volume, waiting,
}
use wamount.Tests.Mounts.{driver, systems}

start-handle_signal_example :
    (is_mounted file_system ≡ true)
    × IsMatched driver systems file_system driver_state
    × ((w' : WinFspApfs) × (t'' : driver.State) × (handle_signal driver Signal.interrupt
            (some file_system)
            driver_state
          ≡ some (0, some w', t''))
        × (w'.file_system ≡ none)
        × (systems.live t'' ≡ [])
        × (systems.running t'' ≡ []))
start-handle_signal_example =
    start-handle_signal os driver systems same same options 0 ([], []) driver_state reader container
      volume file_system 2688 Signal.interrupt refl refl waiting tt

-- The disk that the reader shows, the container on it, and the volume.
abbrev disk : Disk
disk = disk_of os driver same same reader 0

container_there : HasContainer disk
unfolding on_disk fill nx_superblock obj_phys uuid prange array word disk_of read_block read_blocks
    read_bytes read_from
container_there = record {
  is_superblock_read = refl;
  magic = refl;
  omap = λ e. absurd (omega (arith, e));
  is_omap_read = refl;
  room = omega arith;
}

volume_there : IsVolume disk 0
unfolding on_disk fill nx_superblock apfs_superblock wrapped_meta_crypto_state apfs_modified_by
    obj_phys uuid prange array word disk_of read_block read_blocks read_bytes read_from blocks_of
    superblock_at Container.read_block
volume_there = (
  (omega arith, λ e. absurd (omega (arith, e))),
  record {
    is_superblock_read = refl;
    room = omega arith;
    magic = refl;
    name_size = 0;
    name_short = omega arith;
    name_ends = record { zero_byte = refl; others = λ i h. absurd (omega (arith, h)) };
    omap = λ e. absurd (omega (arith, e));
    is_omap_read = refl;
    root = λ e. absurd (omega (arith, e));
  },
)

-- The driver takes the unnamed volume: its name is that of one without.
abbrev accepts : Accepts driver (name_on disk 0 volume_there) (b'E' ∷ b':' ∷ []) ([], [])
accepts = record { system = 4; creates = refl; places = refl; runs = refl }

start-IsVolume_example :
    start os driver same same options 0 ([], [])
    ≡ done (record {
      ending =
          Ending.waits reader
            (stored (brought_up disk) 0 (volume_on disk 0 volume_there))
            (volume_on disk 0 volume_there)
            (mounted_on driver (name_on disk 0 volume_there) (b'E' ∷ b':' ∷ []) ([], []) accepts)
            (mounted_state driver
              (name_on disk 0 volume_there)
              (b'E' ∷ b':' ∷ [])
              ([], [])
              accepts);
      overrun = 2688;
    })
unfolding open_disk open_device open_handle find_size close
start-IsVolume_example =
    start-IsVolume os driver same same options 0 ([], []) (b'E' ∷ b':' ∷ [])
      (name_on disk 0 volume_there) refl container_there volume_there refl refl accepts

start-open_file_example :
    (open_file volume none fresh_info (b'\\' ∷ b'a' ∷ [])
      ≡ done (Status.object_name_not_found, none))
    × (security_by_name volume none fresh_info (b'\\' ∷ b'a' ∷ [])
        ≡ done (Status.object_name_not_found, none))
start-open_file_example =
    start-open_file os driver same same options 0 ([], []) driver_state reader container volume
      file_system 2688 none fresh_info b'\\' (b'a' ∷ []) waiting (λ e. absurd (omega (arith, e)))

start-overrun_example : ◌≡◌ {A = ℕ} 2688 2688
start-overrun_example =
    start-overrun os driver same same options 0 ([], []) driver_state reader container volume
      file_system 2688 waiting
