-- ===== src/Tests/Disks.antt =====
-- A device that holds its bytes in order, and a reader on it.
use wamount.Base.{
  ℕ, ◌+◌, ◌*◌, ◌%◌, ◌^◌, ◌<◌, ◌≤◌, ◌≡◌, refl, ap, sym, arith, Option, true, some, none, done, List,
  [], ◌∷◌,
}
use wamount.Bytes.{Bytes}
use wamount.Volume.Read.{read_extent, temp_size, blocks_to_read}
use wamount.Disk.{Os, DiskReader, open_disk, read_bytes, read_from, read_block, read_blocks, closed}
use wamount.Disk.Handles.{Handles, IsConsistent, open_disk-Opened, Opened}
use wamount.Disk.Contents.{Device, read_block-content}
use wamount.Tests.Data.{some-ne-none}
use wamount.Disk.Filling.{blocks_of, request, read_extent_one_block, read_extent_many_blocks}

-- Every path opens as handle 1, on a device of 100000 bytes. The state is the position and the handles.
abbrev os : Os
os = record {
  State = ℕ × List ℕ;
  create_file = λ path s. (some 1, (s.0, 1 ∷ s.1));
  drive_geometry = λ h s. (some 100000, s);
  get_file_size = λ h s. (none, s);
  set_file_pointer = λ h offset s. (true, (offset, s.1));
  read_file = λ h count s. (some (record { size = count; byte = λ i. (s.0 + i) % 256 }), s);
  close_handle = λ h s. (s.0, elim s.1 [ [] ↦ [] | h ∷ hs ↦ hs ]);
}

abbrev handles : Handles os
handles = record {
  held = λ s. s.1;
  creates = λ path s h e. ap (λ (o : Option ℕ). elim o [ none ↦ 1 ∷ s.1 | some x ↦ x ∷ s.1 ]) e;
  creates_none = λ path s e. absurd (some-ne-none 1 e);
  geometry = λ h s. refl;
  file_size = λ h s. refl;
  closes = λ h s rest e. rw e refl;
}

abbrev content : ℕ → ℕ
content i = i % 256

abbrev device : Device os 1 content
device = record {
  position = λ s. s.0;
  seeks = λ offset s e. refl;
  reads_count = λ count s bytes e.
      omega (arith, ap {B = ℕ} (λ (o : Option Bytes). elim o [ none ↦ count | some b ↦ b.size ]) e);
  reads = λ count s bytes i e h.
      sym (ap (λ (o : Option Bytes). elim o [ none ↦ 0 | some b ↦ b.byte i ]) e);
}

closed-IsConsistent : IsConsistent os handles closed (0, [])
closed-IsConsistent = record { held = refl; size = λ e. refl }

open_disk-Opened_example : Opened os handles (open_disk os closed (65 ∷ []) (0, []))
open_disk-Opened_example = open_disk-Opened os handles closed (65 ∷ []) (0, []) closed-IsConsistent

-- A reader that is open.
abbrev reader : DiskReader
reader = record closed { handle = some 1; disk_size = 100000 }

one_ok : ((blocks_of os reader (0, []) 4096).read_block 3 4096).succeeded ≡ true
unfolding blocks_of read_block read_blocks read_bytes read_from
one_ok = refl

read_extent_one_block_example :
    (out : Bytes) × (read_extent (some (blocks_of os reader (0, []) 4096)) 3 5 10
      ≡ done (true, out))
    × (out.size ≡ 10)
    × ((i : ℕ) → i < 10 → out.byte i ≡ content (3 * 4096 + (5 % 4096 + i)))
read_extent_one_block_example =
    read_extent_one_block os 1 content device reader (0, []) 4096 refl 3 5 10 (omega arith)
      (omega arith) (omega arith) (omega arith) (omega arith) (omega arith) one_ok

many_ok : ((blocks_of os reader (0, []) 4096).read_block 3 (request 10 4090 4096)).succeeded ≡ true
unfolding blocks_of read_block read_blocks read_bytes read_from temp_size blocks_to_read
many_ok = refl

request_value : request 10 4090 4096 ≡ 8192
unfolding temp_size blocks_to_read
request_value = refl

read_extent_many_blocks_example :
    (3 * 4096 + 4096 ≤ 3 * request 10 4090 4096)
    × ((out : Bytes) × (read_extent (some (blocks_of os reader (0, []) 4096)) 3 4090 10
          ≡ done (true, out))
        × ((i : ℕ) → i < 10 → out.byte i ≡ content (3 * request 10 4090 4096 + (4090 % 4096 + i))))
read_extent_many_blocks_example =
    read_extent_many_blocks os 1 content device reader (0, []) 4096 refl 3 4090 10 (omega arith)
      (omega arith) (omega arith) (omega arith) (omega arith) (omega (arith, request_value)) many_ok

block_ok : (read_block os reader 3 4096 (0, [])).0.succeeded ≡ true
unfolding read_block read_blocks read_bytes read_from
block_ok = refl

read_block-content_example :
    ((read_block os reader 3 4096 (0, [])).0.delivered.size ≡ 4096)
    × (4096 < 2 ^ 32)
    × ((3 * 4096 % 2 ^ 64 + 4096) % 2 ^ 64 ≤ 100000)
    × ((i : ℕ)
        → i < 4096
        → (read_block os reader 3 4096 (0, [])).0.delivered.byte i
          ≡ content (3 * 4096 % 2 ^ 64 + i))
read_block-content_example =
    read_block-content os 1 content device reader 3 4096 (0, []) refl (omega arith) block_ok
