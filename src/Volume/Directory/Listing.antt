-- ===== src/Volume/Directory/Listing.antt =====
-- What `readDirectory` lists.
use wamount.Base.{
  All, filter_map, ℕ, ◌+◌, ◌≤◌, ◌<◌, ◌≡◌, refl, arith, Option, some, List, [], ◌∷◌, Result, done,
  fault, le→ltb, lt→leb, le→leb,
}
use wamount.Bytes.{window}
use wamount.Blocks.{Blocks}
use wamount.Btree.{Btree, BtreeEntry, lookup_range}
use wamount.Apfs.Layout.{view}
use wamount.Apfs.Records.{j_key, j_drec_key, j_drec_val}
use wamount.Apfs.Sizes.{sizeof_j_drec_key, sizeof_j_drec_val}
use wamount.Volume.{Volume, FileInfo}
use wamount.Volume.Directory.{child_of, children, entry_name, read_directory}

-- On a volume with a tree every listing succeeds and is empty, whatever the directory and whatever
-- the disk holds.
pub read_directory-nil :
    (v : Volume) (t : Btree) (container : Option Blocks) (inode : ℕ)
    → v.root_tree ≡ some t
    → read_directory v container inode ≡ done []
unfolding read_directory lookup_range children
read_directory-nil v t container inode tree = rw (tree, read_directory)

-- Where every entry of a directory is read without a fault, the loop over them keeps those that
-- give a child, in their order, and passes over the others.
children-filter_map :
    (info_of : ℕ → Result (Option FileInfo)) (child : BtreeEntry → Option FileInfo)
    → (entries : List BtreeEntry)
    → All (λ entry. child_of info_of entry ≡ done (child entry)) entries
    → children info_of entries ≡ done (filter_map child entries)
unfolding children
children-filter_map info_of child [] h = refl
children-filter_map info_of child (entry ∷ entries) h =
    rw (h.0, children-filter_map info_of child entries h.1) (ground arith)

-- An entry of a directory with a long enough key and value, whose inode is found, but whose key
-- states a longer name than it holds, has its name read from beyond the end of the key.
child_of-long_name :
    (info_of : ℕ → Result (Option FileInfo)) (entry : BtreeEntry) (info : FileInfo)
    → sizeof_j_drec_key ≤ entry.key.size
    → sizeof_j_drec_val ≤ entry.value.size
    → info_of (j_drec_val entry.value 0).0.file_id ≡ done (some info)
    → entry.key.size < sizeof_j_drec_key + (j_drec_key entry.key 0).0.name_len
    → child_of info_of entry ≡ fault
unfolding child_of entry_name view window j_drec_key j_drec_val j_key
child_of-long_name info_of entry info key value found long = rw (
  le→ltb entry.key.size sizeof_j_drec_key key,
  le→leb sizeof_j_drec_key entry.key.size key,
  le→ltb entry.value.size sizeof_j_drec_val value,
  le→leb sizeof_j_drec_val entry.value.size value,
  found,
  lt→leb (sizeof_j_drec_key + (j_drec_key entry.key 0).0.name_len) entry.key.size long,
)
