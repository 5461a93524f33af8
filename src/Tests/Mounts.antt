-- ===== src/Tests/Mounts.antt =====
-- A driver that refuses nothing, and the file system that is mounted on it.
use wamount.Base.{
  ℕ, ◌+◌, ◌*◌, ◌/◌, ◌%◌, ◌<◌, ◌≤◌, ◌≡◌, ◌↔◌, refl, ap, arith, Bool, true, false, Option, some, none,
  List, [], ◌∷◌, done,
}
use wamount.Bytes.{c_string, c_string_from, word}
use wamount.Apfs.Layout.{array}
use wamount.Apfs.Objects.{obj_phys, uuid}
use wamount.Apfs.Superblocks.{apfs_superblock, wrapped_meta_crypto_state, apfs_modified_by}
use wamount.Volume.{Volume, FileInfo, get_volume_name}
use wamount.Volume
use wamount.Winfsp.{Driver, WinFspApfs, create, mount, mount_named, mount_created, fill_file_info}
use wamount.Winfsp.Mounting.{Systems, IsMatched, is_mounted, mount-IsMatched}
use wamount.Winfsp.Info.{fill_file_info_bounds}
use wamount.Volume.Directory.{fresh_info}
use wamount.Tests.Data.{volume, some-ne-none, true-ne-false}

abbrev pub tail : List ℕ → List ℕ
tail [] = []
tail (x ∷ xs) = xs

-- The file systems, and those whose dispatcher runs. Every new one is 4.
abbrev pub driver : Driver
driver = record {
  State = List ℕ × List ℕ;
  create = λ prefix s. (some 4, (4 ∷ s.0, s.1));
  set_mount_point = λ fs mount_point s. (true, s);
  start_dispatcher = λ fs s. (true, (s.0, fs ∷ s.1));
  stop_dispatcher = λ fs s. (s.0, tail s.1);
  delete = λ fs s. (tail s.0, s.1);
}

abbrev pub systems : Systems driver
systems = record {
  live = λ s. s.0;
  running = λ s. s.1;
  creates = λ prefix s fs e.
      (ap (λ (o : Option ℕ). elim o [ none ↦ 4 ∷ s.0 | some x ↦ x ∷ s.0 ]) e, refl);
  creates_none = λ prefix s e. absurd (some-ne-none 4 e);
  places = λ fs mount_point s. (refl, refl);
  starts = λ fs s e. (refl, refl);
  starts_not = λ fs s e. absurd (true-ne-false e);
  stops = λ fs s rest e. (refl, ap tail e);
  deletes = λ fs s rest e. (ap tail e, refl);
}

-- "E:"
abbrev mount_point : List ℕ
mount_point = 69 ∷ 58 ∷ []

abbrev outcome : Bool × WinFspApfs × driver.State
outcome = (true, record { file_system = some 4; mount_point = mount_point }, (4 ∷ [], 4 ∷ []))

mounted : mount driver (λ name. some name) volume create mount_point ([], []) ≡ done (some outcome)
unfolding mount mount_named mount_created create get_volume_name c_string c_string_from
    Volume.create apfs_superblock obj_phys uuid array wrapped_meta_crypto_state apfs_modified_by
    word
mounted = refl

unmounted_IsMatched : IsMatched driver systems create ([], [])
unfolding create
unmounted_IsMatched = record { live = refl; running = refl }

mount-IsMatched_example :
    IsMatched driver systems outcome.1 outcome.2
    × ((outcome.0 ≡ true) ↔ ((is_mounted create ≡ false) × (is_mounted outcome.1 ≡ true)))
mount-IsMatched_example =
    mount-IsMatched driver systems (λ name. some name) volume create mount_point ([], []) outcome
      unmounted_IsMatched mounted

-- A file of 5000 bytes.
abbrev info : FileInfo
info = record fresh_info {
  size = 5000;
  create_time = 1700000000000000000;
  mod_time = 1700000001000000000;
}

fill_file_info_bounds_example :
    let new = fill_file_info info in
    (5000 ≤ new.allocation_size)
    × (new.allocation_size < 5000 + 4096)
    × (new.allocation_size % 4096 ≡ 0)
    × (new.creation_time ≡ (1700000000000000000 / 1000000000 + 11644473600) * 10000000)
    × (new.last_write_time ≡ (1700000001000000000 / 1000000000 + 11644473600) * 10000000)
fill_file_info_bounds_example = fill_file_info_bounds info (omega arith) (omega arith) (omega arith)
