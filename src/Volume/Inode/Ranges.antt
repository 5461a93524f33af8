-- ===== src/Volume/Inode/Ranges.antt =====
-- What `getFileInfo` gives fits the members of the struct, whatever the block of the root holds.
use native.Mathlib.Decide.{ℕ_discrete, dec_lt}
use wamount.Base.{
  ℕ, ◌+◌, ◌^◌, ◌<◌, ◌≡◌, sym, subst, ◌∙◌, arith, some, none, done, Bool-cases, Result-cases, inl,
  inr,
}
use wamount.Bytes.{Bytes, IsBytes, fill, word}
use wamount.Bytes.Words.{word-lt}
use wamount.Blocks.{Blocks}
use wamount.Apfs.Types.{apfs_type_inode}
use wamount.Apfs.Keys.{make_key, key_bytes}
use wamount.Apfs.Records.{j_inode_val, j_dstream}
use wamount.Apfs.Sizes.{sizeof_j_inode_val, sizeof_x_field}
use wamount.Btree.{Btree, lookup, read_node}
use wamount.Btree.Lookup.{loaded, lookup-loaded}
use wamount.Btree.Soundness.{search_node-Holds}
use wamount.Volume.{Volume, FileInfo}
use wamount.Volume.Inode.{inode_info, get_file_info}
use wamount.Volume.Inode.Xfields.{Size, dstream_at}
use wamount.Volume.Inode.Laws.{
  inode_val, Describes, inode_info-Describes, inode_info-short, get_file_info-found,
  get_file_info-missing,
}

-- The members are in the ranges of their types, `uint64_t` and, for the mode, `uint16_t`.
pub record IsTyped (info : FileInfo) : Type 0 where
  pub parent_id : info.parent_id < 2 ^ 64
  pub create_time : info.create_time < 2 ^ 64
  pub mod_time : info.mod_time < 2 ^ 64
  pub mode : info.mode < 2 ^ 16
  pub size : info.size < 2 ^ 64

-- The block of the root consists of bytes.
abbrev pub IsReadInBytes : Btree → Blocks → Type 0
IsReadInBytes t blocks = IsBytes (blocks.read_block t.root_oid blocks.block_size).delivered

word_8 : (b : Bytes) (o : ℕ) → IsBytes b → word 8 b o < 2 ^ 64
word_8 b o h = omega (arith, word-lt 8 b o h)

word_2 : (b : Bytes) (o : ℕ) → IsBytes b → word 2 b o < 2 ^ 16
word_2 b o h = omega (arith, word-lt 2 b o h)

loaded-IsBytes :
    (t : Btree) (blocks : Blocks) → IsReadInBytes t blocks → IsBytes (loaded blocks t.root_oid)
unfolding loaded fill
loaded-IsBytes t blocks h i = ground (arith, h i)

lookup-IsBytes :
    (t : Btree) (blocks : Blocks) (key value : Bytes)
    → IsReadInBytes t blocks
    → lookup t (some (some blocks)) key ≡ done (some value)
    → IsBytes value
unfolding lookup read_node
lookup-IsBytes t blocks key value bytes e = elim (ℕ_discrete t.root_oid 0) [
  | yes null ↦ absurd (ground (arith, null, e))
  | no address ↦ elim (Bool-cases (blocks.read_block t.root_oid blocks.block_size).succeeded) [
    | inr refused ↦ absurd (ground (arith, address, refused, e))
    | inl read ↦
        let (i, below, holds) =
          search_node-Holds (loaded blocks t.root_oid) key value
            (sym (lookup-loaded t blocks key address read) ∙ e) in
        subst IsBytes (sym holds.value_is) (λ i. loaded-IsBytes t blocks bytes _)
  ]
]

Size-lt : (value : Bytes) (start size : ℕ) → IsBytes value → Size value start size → size < 2 ^ 64
unfolding dstream_at j_dstream
Size-lt value start size h (Size.stream o chain inside kind e) =
    omega (arith, e, word_8 value (o + sizeof_x_field) h)
Size-lt value start size h (Size.cut_off o chain inside past kind e) = omega arith
Size-lt value start size h (Size.no_stream o chain past e) = omega arith

Describes-IsTyped :
    (inode : ℕ) (value : Bytes) (old new : FileInfo)
    → IsBytes value
    → Describes inode value old new
    → IsTyped new
unfolding inode_val j_inode_val
Describes-IsTyped inode value old new h told = record {
  parent_id = omega (arith, told.parent_id, word_8 value 0 h);
  create_time = omega (arith, told.create_time, word_8 value 16 h);
  mod_time = omega (arith, told.mod_time, word_8 value 24 h);
  mode = omega (arith, told.mode, word_2 value 80 h);
  size = Size-lt value sizeof_j_inode_val new.size h told.size;
}

inode_info-IsTyped :
    (inode : ℕ) (value : Bytes) (info new : FileInfo)
    → IsBytes value
    → inode_info inode value info ≡ done (some new)
    → IsTyped new × (new.inode ≡ inode)
inode_info-IsTyped inode value info new bytes e = elim (dec_lt value.size sizeof_j_inode_val) [
  | yes cut ↦ absurd (ground (arith, inode_info-short inode value info cut, e))
  | no whole ↦
      let (made, run, told) = inode_info-Describes inode value info (omega arith) in
      let same : made ≡ new = ground (arith, run, e) in
      subst (λ (x : FileInfo). IsTyped x × (x.inode ≡ inode)) same
        (Describes-IsTyped inode value info made bytes told, told.number)
]

-- On a volume with a tree, whatever the block of the root holds, as long as it consists of bytes,
-- what getFileInfo gives has the number that was asked for and members in the ranges of their
-- types: the parent, the times and the size below 2^64 and the mode below 2^16.
pub get_file_info-IsTyped :
    (v : Volume) (t : Btree) (blocks : Blocks) (inode : ℕ) (info new : FileInfo)
    → v.root_tree ≡ some t
    → IsReadInBytes t blocks
    → get_file_info v (some blocks) inode info ≡ done (some new)
    → IsTyped new × (new.inode ≡ inode)
get_file_info-IsTyped v t blocks inode info new tree bytes e =
    elim (Result-cases
      (lookup t (some (some blocks)) (key_bytes (make_key inode apfs_type_inode)))) [
        | inl p ↦ absurd (unfold get_file_info in ground (arith, tree, p, e))
        | inr (none, p) ↦
            absurd (ground (arith, get_file_info-missing v t (some blocks) inode info tree p, e))
        | inr (some value, p) ↦
            inode_info-IsTyped inode value info new (lookup-IsBytes t blocks _ value bytes p)
              (sym (get_file_info-found v t (some blocks) inode info value tree p) ∙ e)
      ]
