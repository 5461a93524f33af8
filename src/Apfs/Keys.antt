-- ===== src/Apfs/Keys.antt =====
-- The key of a record in the file system tree: 60 bits of an object's identifier below 4 bits that
-- say what kind of record it is (include/apfs_structures.h; volume.cpp builds such keys).
use wamount.Base.{ℕ, ◌+◌, ◌*◌, ◌/◌, ◌%◌, ◌^◌, ◌<◌, ◌≡◌, ◌↔◌, arith, bit_and, bit_or}
use wamount.Base.Bits.{bit_and_mask, bit_and_high, bit_or_fields}
use wamount.Bytes.{Bytes, store, join}
use wamount.Apfs.Records.{JKey}

abbrev pub obj_id_mask : ℕ
obj_id_mask = 0x0fffffffffffffff

abbrev pub obj_type_mask : ℕ
obj_type_mask = 0xf000000000000000

abbrev pub obj_type_shift : ℕ
obj_type_shift = 60

-- The result is a `uint8_t`.
unfoldable pub j_key_obj_id : JKey → ℕ
j_key_obj_id key = bit_and key.obj_id_and_type obj_id_mask

unfoldable pub j_key_obj_type : JKey → ℕ
j_key_obj_type key = bit_and key.obj_id_and_type obj_type_mask / 2 ^ obj_type_shift % 2 ^ 8

-- `(inode & OBJ_ID_MASK) | (static_cast<uint64_t>(type) << OBJ_TYPE_SHIFT)`
unfoldable pub make_key : ℕ → ℕ → JKey
make_key inode type = record {
  obj_id_and_type = bit_or (bit_and inode obj_id_mask) (type * 2 ^ obj_type_shift % 2 ^ 64);
}

-- The bytes of a `j_key_t` and of a `j_file_extent_key_t` in memory.
unfoldable pub key_bytes : JKey → Bytes
key_bytes key = store 8 key.obj_id_and_type

unfoldable pub extent_key_bytes : JKey → ℕ → Bytes
unfolding join
extent_key_bytes key logical_addr = join (store 8 key.obj_id_and_type) (store 8 logical_addr)

-- The two parts of a key, as arithmetic.
pub make_key_value :
    (inode type : ℕ)
    → type < 16
    → (make_key inode type).obj_id_and_type ≡ inode % 2 ^ 60 + type * 2 ^ 60
unfolding make_key
make_key_value inode type h =
    ground (arith, bit_and_mask 60 inode, bit_or_fields 60 type (inode % 2 ^ 60))

-- A key that is made for a kind below 16 gives back the kind, and the low 60 bits of the
-- identifier.
make_key-roundtrip :
    (inode type : ℕ)
    → type < 16
    → (j_key_obj_id (make_key inode type) ≡ inode % 2 ^ 60)
      × (j_key_obj_type (make_key inode type) ≡ type)
unfolding j_key_obj_id j_key_obj_type
make_key-roundtrip inode type h =
    let value : ℕ = (make_key inode type).obj_id_and_type in
    ground (
      arith,
      make_key_value inode type h,
      bit_and_mask 60 value,
      bit_and_high 60 value 15,
      bit_and_mask 4 (value / 2 ^ 60),
    )

-- Two keys that are made for kinds below 16 are equal exactly when the kinds and the low 60 bits of
-- the identifiers are.
make_key_iff :
    (inode inode' type type' : ℕ)
    → type < 16
    → type' < 16
    → ((make_key inode type).obj_id_and_type ≡ (make_key inode' type').obj_id_and_type)
      ↔ ((inode % 2 ^ 60 ≡ inode' % 2 ^ 60) × (type ≡ type'))
make_key_iff inode inode' type type' h h' =
    let v = make_key_value inode type h in
    let v' = make_key_value inode' type' h' in
    (λ e. omega (arith, v, v'), λ e. omega (arith, v, v'))
