-- ===== src/Volume/Records.antt =====
-- What a volume finds in its tree, told by the records that stand there.
use native.Mathlib.Decide.{dec_lt}
use wamount.Base.{
  lt→ltb, le→ltb, min, ltb, leb, true, ◌-◌, ◌>>=◌, ◌∙◌, sym, refl, fault, if◌then◌else◌,
  Result-cases, inl, inr, ℕ, ◌%◌, ◌^◌, ◌<◌, ◌≡◌, arith, Option, some, none, Result, done,
}
use wamount.Bytes.{Bytes, zeros}
use wamount.Blocks.{Blocks}
use wamount.Btree.{Btree, lookup}
use wamount.Btree.Records.{FirstOf, IsRoot, lookup-FirstOf}
use wamount.Btree.Lookup.{loaded}
use wamount.Apfs.Types.{apfs_type_inode}
use wamount.Apfs.Keys.{make_key, key_bytes}
use wamount.Apfs.KeyBytes.{
  IsRecordKey, IsExtentKey, key_bytes-IsRecordKey, extent_key_bytes-IsExtentKey,
}
use wamount.Volume.{Volume, FileInfo}
use wamount.Volume.Inode.{get_file_info, inode_info}
use wamount.Volume.Inode.Laws.{get_file_info-found, get_file_info-missing}
use wamount.Volume.Directory.{fresh_info}
use wamount.Volume.Read.{Outcome, refused, read_file, read_at, read_extent}
use wamount.Volume.Read.Extent.{extent_key, phys_block, read_at-found}
use wamount.Apfs.Layout.{view}
use wamount.Apfs.Records.{j_file_extent_val}
use wamount.Apfs.Sizes.{sizeof_j_file_extent_val}

-- What `getFileInfo` makes of the record that it finds, or does not find.
abbrev pub info_of : ℕ → FileInfo → Option Bytes → Result (Option FileInfo)
info_of inode info none = done none
info_of inode info (some value) = inode_info inode value info

info_of-lookup :
    (v : Volume) (t : Btree) (blocks : Blocks) (inode : ℕ) (info : FileInfo) (r : Option Bytes)
    → v.root_tree ≡ some t
    → lookup t (some (some blocks)) (key_bytes (make_key inode apfs_type_inode)) ≡ done r
    → get_file_info v (some blocks) inode info ≡ info_of inode info r
info_of-lookup v t blocks inode info none tree run =
    get_file_info-missing v t (some blocks) inode info tree run
info_of-lookup v t blocks inode info (some value) tree run =
    get_file_info-found v t (some blocks) inode info value tree run

-- On a volume whose tree has a well-formed root, the information on a file is what the first record
-- with the key of an inode and the low 60 bits of the number gives, and none if the root has no
-- such record.
pub get_file_info-FirstOf :
    (v : Volume) (t : Btree) (blocks : Blocks) (inode : ℕ) (info : FileInfo)
    → v.root_tree ≡ some t
    → IsRoot t blocks
    → (r : Option Bytes) × FirstOf
        (loaded blocks t.root_oid)
        (IsRecordKey (inode % 2 ^ 60) apfs_type_inode)
        r
      × (get_file_info v (some blocks) inode info ≡ info_of inode info r)
get_file_info-FirstOf v t blocks inode info tree root =
    let (r, run, first) =
      lookup-FirstOf t blocks (key_bytes (make_key inode apfs_type_inode)) _ root
        (λ k bytes. key_bytes-IsRecordKey inode apfs_type_inode k (omega arith) bytes) in
    (r, first, info_of-lookup v t blocks inode info r tree run)

-- The search for an extent finds the first record of an extent of the file at the very offset.
pub extent-FirstOf :
    (t : Btree) (blocks : Blocks) (inode offset : ℕ)
    → IsRoot t blocks
    → offset < 2 ^ 64
    → (r : Option Bytes) × (lookup t (some (some blocks)) (extent_key inode offset) ≡ done r)
      × FirstOf (loaded blocks t.root_oid) (IsExtentKey (inode % 2 ^ 60) offset) r
extent-FirstOf t blocks inode offset root short =
    lookup-FirstOf t blocks (extent_key inode offset) _ root
      (λ k bytes. extent_key_bytes-IsExtentKey inode offset k short bytes)

-- What `readFile` makes of the file's information and of the extent's record that it finds, or does not
-- find.
abbrev pub content_of : Blocks → ℕ → ℕ → Option Bytes → Result Outcome
content_of blocks offset n none = done refused
content_of blocks offset n (some value) =
    if ltb value.size sizeof_j_file_extent_val
    then done refused
    else read_extent (some blocks) (phys_block value) offset n

abbrev pub read_of : Blocks → ℕ → ℕ → Option Bytes → Option FileInfo → Result Outcome
read_of blocks offset size extent none = done refused
read_of blocks offset size extent (some info) =
    if info.is_directory
    then done refused
    else if leb info.size offset
    then done (true, zeros 0)
    else content_of blocks offset (min size (info.size - offset)) extent

content_of-lookup :
    (t : Btree) (blocks : Blocks) (inode offset n : ℕ) (r : Option Bytes)
    → lookup t (some (some blocks)) (extent_key inode offset) ≡ done r
    → read_at t (some blocks) inode offset n ≡ content_of blocks offset n r
unfolding read_at view j_file_extent_val phys_block
content_of-lookup t blocks inode offset n none run = rw run refl
content_of-lookup t blocks inode offset n (some value) run =
    elim (dec_lt value.size sizeof_j_file_extent_val) [
      | yes cut ↦ rw run (rw (lt→ltb value.size sizeof_j_file_extent_val cut) refl)
      | no whole ↦
          read_at-found t (some blocks) inode offset n value run (omega arith)
          ∙ sym (rw (le→ltb value.size sizeof_j_file_extent_val (omega arith)) refl)
    ]

read_of-found :
    (v : Volume) (t : Btree) (blocks : Blocks) (inode offset size : ℕ) (r : Option Bytes)
    (found : Option FileInfo)
    → v.root_tree ≡ some t
    → get_file_info v (some blocks) inode fresh_info ≡ done found
    → lookup t (some (some blocks)) (extent_key inode offset) ≡ done r
    → read_file v (some blocks) inode offset size ≡ read_of blocks offset size r found
unfolding read_file
read_of-found v t blocks inode offset size r none tree run lookup_run = rw run refl
read_of-found v t blocks inode offset size r (some info) tree run lookup_run =
    let n : ℕ = min size (info.size - offset) in
    ground (arith, run, tree, content_of-lookup t blocks inode offset n r lookup_run)

read_file-fault :
    (v : Volume) (blocks : Blocks) (inode offset size : ℕ)
    → get_file_info v (some blocks) inode fresh_info ≡ fault
    → read_file v (some blocks) inode offset size ≡ fault
unfolding read_file
read_file-fault v blocks inode offset size p = rw p refl

-- On a volume whose tree has a well-formed root, a read at an offset below 2^64 is decided by two
-- records in the root, whatever becomes of it: the first with the key of the file's inode and the
-- first with that of an extent of the file at the very offset. It is refused if there is no inode
-- or if it is a directory; at or past the end of the file it succeeds with no bytes; and otherwise
-- it is refused if there is no extent or one that is cut off, and is the read of the extent's
-- blocks, cut at the end of the file, if not.
pub read_file-FirstOf :
    (v : Volume) (t : Btree) (blocks : Blocks) (inode offset size : ℕ)
    → v.root_tree ≡ some t
    → IsRoot t blocks
    → offset < 2 ^ 64
    → (found extent : Option Bytes) × FirstOf
        (loaded blocks t.root_oid)
        (IsRecordKey (inode % 2 ^ 60) apfs_type_inode)
        found
      × FirstOf (loaded blocks t.root_oid) (IsExtentKey (inode % 2 ^ 60) offset) extent
      × (read_file v (some blocks) inode offset size
          ≡ (info_of inode fresh_info found >>= λ info. read_of blocks offset size extent info))
read_file-FirstOf v t blocks inode offset size tree root short =
    let (found, first, run) = get_file_info-FirstOf v t blocks inode fresh_info tree root in
    let (extent, extent_run, extent_first) = extent-FirstOf t blocks inode offset root short in
    (
      found,
      extent,
      first,
      extent_first,
      elim (Result-cases (info_of inode fresh_info found)) [
        | inl p ↦ read_file-fault v blocks inode offset size (run ∙ p) ∙ sym (rw p refl)
        | inr (info, p) ↦
            read_of-found v t blocks inode offset size extent info tree (run ∙ p) extent_run
            ∙ sym (rw p refl)
      ],
    )
