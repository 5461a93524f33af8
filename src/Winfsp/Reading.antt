-- ===== src/Winfsp/Reading.antt =====
-- What Read answers where no extent of the file begins at the offset that is asked for.
use wamount.Base.{
  ℕ, ◌%◌, ◌^◌, ◌<◌, ◌≡◌, ap, ◌∙◌, refl, false, Option, some, none, done, ◌>>=◌, lt→leb,
}
use wamount.Bytes.{Bytes}
use wamount.Blocks.{Blocks}
use wamount.Btree.{Btree}
use wamount.Btree.Entries.{nkeys, key_at}
use wamount.Btree.Lookup.{loaded}
use wamount.Btree.Records.{FirstOf, FirstOf-unique, IsRoot}
use wamount.Apfs.Types.{apfs_type_inode}
use wamount.Apfs.KeyBytes.{IsRecordKey, IsExtentKey}
use wamount.Volume.{Volume, FileInfo}
use wamount.Volume.Inode.{inode_info}
use wamount.Volume.Directory.{fresh_info}
use wamount.Volume.Read.{read_file, refused}
use wamount.Volume.Records.{read_file-FirstOf, info_of, read_of}
use wamount.Winfsp.{FileContext}
use wamount.Winfsp.Callbacks.{Status, read}

module _ (v : Volume) (t : Btree) (blocks : Blocks) (tree : v.root_tree ≡ some t)
    (root : IsRoot t blocks) where
  read_file-no_extent :
      (inode offset size : ℕ) (value : Bytes) (info : FileInfo)
      → offset < 2 ^ 64
      → FirstOf
          (loaded blocks t.root_oid)
          (IsRecordKey (inode % 2 ^ 60) apfs_type_inode)
          (some value)
      → inode_info inode value fresh_info ≡ done (some info)
      → info.is_directory ≡ false
      → offset < info.size
      → ((j : ℕ)
          → j < nkeys (loaded blocks t.root_oid)
          → ¬ IsExtentKey (inode % 2 ^ 60) offset (key_at (loaded blocks t.root_oid) j))
      → read_file v (some blocks) inode offset size ≡ done refused
  read_file-no_extent inode offset size value info short first told file inside none_begins =
      let (found, extent, found_first, extent_first, run) =
        read_file-FirstOf v t blocks inode offset size tree root short in
      run
      ∙ ap
          (λ (r : Option Bytes).
            info_of inode fresh_info r >>= λ i. read_of blocks offset size extent i)
          (FirstOf-unique found_first first)
      ∙ ap
          (λ (e : Option Bytes).
            inode_info inode value fresh_info >>= λ i. read_of blocks offset size e i)
          (FirstOf-unique extent_first (FirstOf.miss none_begins refl))
      ∙ rw told (rw file (rw (lt→leb info.size offset inside) refl))

  -- On a volume whose tree has a well-formed root, a Read inside a file, at an offset below 2^64 at
  -- which no extent of the file begins, is answered with STATUS_UNSUCCESSFUL, where the context and
  -- the first record of the inode say that the file is no directory.
  pub read-no_extent :
      (context : FileContext) (offset length : ℕ) (value : Bytes) (info : FileInfo)
      → offset < 2 ^ 64
      → FirstOf
          (loaded blocks t.root_oid)
          (IsRecordKey (context.inode % 2 ^ 60) apfs_type_inode)
          (some value)
      → inode_info context.inode value fresh_info ≡ done (some info)
      → info.is_directory ≡ false
      → context.is_directory ≡ false
      → offset < info.size
      → ((j : ℕ)
          → j < nkeys (loaded blocks t.root_oid)
          → ¬ IsExtentKey (context.inode % 2 ^ 60) offset (key_at (loaded blocks t.root_oid) j))
      → read v (some blocks) context offset length ≡ done (Status.unsuccessful, none)
  unfolding read
  read-no_extent context offset length value info short first told file open_file inside
        none_begins =
      rw open_file (
        rw
          (read_file-no_extent context.inode offset length value info short first told file inside
            none_begins)
          refl)
