-- ===== src/Tests/Data.antt =====
-- Concrete memory and nodes.
use wamount.Base.{
  ℕ, zero, suc, ◌<◌, arith, ◌==◌, ◌≡◌, Bool, true, false, Option, none, some, List, [], ◌∷◌,
  if◌then◌else◌, length, get_or,
}
use wamount.Bytes.{Bytes}
use wamount.Btree
use wamount.Volume.{Volume, create}

-- Memory that holds the items of a list.
abbrev pub memory : List ℕ → Bytes
memory xs = record { size = length xs; byte = λ i. get_or xs i 0 }

-- The byte at an offset, where all but a few are zero.
abbrev pub sparse_byte : List (ℕ × ℕ) → ℕ → ℕ
sparse_byte [] i = 0
sparse_byte ((o, b) ∷ cells) i = if i == o then b else sparse_byte cells i

abbrev pub sparse : ℕ → List (ℕ × ℕ) → Bytes
sparse n cells = record { size = n; byte = sparse_byte cells }

-- A node with the keys 5 6 and 7, and the values 1 2 and 3. The table of contents begins at 56.
abbrev pub two_keys : Bytes
two_keys = sparse 78 (
    (24, 2)
    ∷ (36, 2)
    ∷ (56, 72)
    ∷ (58, 2)
    ∷ (60, 74)
    ∷ (62, 1)
    ∷ (64, 75)
    ∷ (66, 2)
    ∷ (68, 77)
    ∷ (70, 1)
    ∷ (72, 5)
    ∷ (73, 6)
    ∷ (74, 7)
    ∷ (75, 1)
    ∷ (76, 2)
    ∷ (77, 3)
    ∷ [])

-- The same head over a block that ends where the table of contents begins.
abbrev pub cut_node : Bytes
cut_node = sparse 56 ((24, 2) ∷ (36, 2) ∷ [])

-- A block of another type.
abbrev pub other_block : Bytes
other_block = sparse 56 ((24, 11) ∷ [])

abbrev pub key_7 : Bytes
key_7 = memory (7 ∷ [])

-- The value of an inode's record: a regular file of 100 bytes, with one extended field, a data stream.
abbrev pub inode_record : Bytes
inode_record = sparse 136 ((0, 2) ∷ (80, 0xa4) ∷ (81, 0x81) ∷ (92, 8) ∷ (94, 40) ∷ (96, 100) ∷ [])

-- A node with the records of inode 2 and of its extent at offset 0, in block 9.
abbrev pub file_cells : List (ℕ × ℕ)
file_cells =
    (24, 2)
    ∷ (36, 2)
    ∷ (56, 72)
    ∷ (58, 8)
    ∷ (60, 80)
    ∷ (62, 16)
    ∷ (64, 96)
    ∷ (66, 136)
    ∷ (68, 232)
    ∷ (70, 24)
    ∷ (72, 2)
    ∷ (79, 0x30)
    ∷ (80, 2)
    ∷ (87, 0x80)
    ∷ (96, 2)
    ∷ (176, 0xa4)
    ∷ (177, 0x81)
    ∷ (188, 8)
    ∷ (190, 40)
    ∷ (192, 100)
    ∷ (240, 9)
    ∷ []

abbrev pub file_node : Bytes
file_node = sparse 256 file_cells

-- A volume whose tree has its root at block 7.
abbrev pub volume : Volume
volume = record (create 5) { root_tree = some (Btree.create 7) }

-- Block 0 has the superblock of a container, and block 50 that of a volume.
abbrev pub container_byte : ℕ → ℕ → ℕ
container_byte block = elim (block == 0) [
  | true ↦
      (sparse 4096 (
        (32, 0x4e)
        ∷ (33, 0x58)
        ∷ (34, 0x53)
        ∷ (35, 0x42)
        ∷ (37, 16)
        ∷ (40, 100)
        ∷ (160, 30)
        ∷ (184, 50)
        ∷ [])).byte
  | false ↦
      (sparse 4096
        ((32, 0x41) ∷ (33, 0x50) ∷ (34, 0x53) ∷ (35, 0x42) ∷ (128, 31) ∷ (136, 7) ∷ [])).byte
]

pub some-ne-none : (n : ℕ) → ¬ (◌≡◌ {A = Option ℕ} (some n) none)
some-ne-none n e = cc

pub true-ne-false : ¬ (◌≡◌ {A = Bool} true false)
true-ne-false e = cc

-- What holds of 0 and 1 holds below 2.
pub below_two : (P : ℕ → Type 0) → P 0 → P 1 → (i : ℕ) → i < 2 → P i
below_two P first second zero h = first
below_two P first second (suc zero) h = second
below_two P first second (suc (suc i)) h = absurd (omega arith)
