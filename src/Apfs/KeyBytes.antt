-- ===== src/Apfs/KeyBytes.antt =====
-- The keys of records as bytes: a key in memory holds the same bytes as the one that the program builds
-- exactly when its members say the same.
use native.Mathlib.Nat.{add-zero}
use native.Mathlib.Decide.{dec_lt}
use wamount.Base.{
  ℕ, zero, suc, ◌+◌, ◌-◌, ◌*◌, ◌/◌, ◌%◌, ◌^◌, ◌<◌, ◌≡◌, ◌↔◌, refl, sym, ap, ◌∙◌, arith, lt→ltb,
  le→ltb,
}
use wamount.Base.Bits.{bit_and_mask, bit_and_high}
use wamount.Bytes.{Bytes, IsBytes, word, store, join}
use wamount.Bytes.Words.{word-lt, word-congr, word-store, store-IsBytes}
use wamount.Bytes.Compare.{SameBytes}
use wamount.Apfs.Records.{JKey, j_key, j_file_extent_key}
use wamount.Apfs.Keys.{
  make_key, key_bytes, extent_key_bytes, j_key_obj_id, j_key_obj_type, make_key_value,
}

later : (o i : ℕ) → o + suc i ≡ o + 1 + i
later o i = omega arith

-- Two words are equal only where all their bytes are.
word-injective :
    (w : ℕ) (b c : Bytes) (o p : ℕ)
    → IsBytes b
    → IsBytes c
    → word w b o ≡ word w c p
    → (i : ℕ) → i < w
    → b.byte (o + i) ≡ c.byte (p + i)
unfolding word
word-injective zero b c o p hb hc e i h = absurd (omega arith)
word-injective (suc w) b c o p hb hc e zero h =
    let first : b.byte o ≡ c.byte p = omega (arith, hb o, hc p, e) in
    ap b.byte (add-zero o) ∙ first ∙ ap c.byte (sym (add-zero p))
word-injective (suc w) b c o p hb hc e (suc i) h =
    let rest : word w b (o + 1) ≡ word w c (p + 1) = omega (arith, hb o, hc p, e) in
    ap b.byte (later o i)
    ∙ word-injective w b c (o + 1) (p + 1) hb hc rest i (omega arith)
    ∙ ap c.byte (sym (later p i))

-- The members of a key, as two numbers in one.
obj_id-and-type :
    (k : JKey) (id type : ℕ)
    → k.obj_id_and_type < 2 ^ 64
    → type < 16
    → id < 2 ^ 60
    → (k.obj_id_and_type ≡ id + type * 2 ^ 60) ↔ ((j_key_obj_id k ≡ id) × (j_key_obj_type k ≡ type))
unfolding j_key_obj_id j_key_obj_type
obj_id-and-type k id type fits small below =
    let value : ℕ = k.obj_id_and_type in
    let low = bit_and_mask 60 value in
    let high = bit_and_high 60 value 15 in
    let four = bit_and_mask 4 (value / 2 ^ 60) in
    (
      λ e. (ground (arith, low, e), ground (arith, high, four, e)),
      λ both. ground (arith, low, high, four, both.0, both.1),
    )

-- A key of a kind and an identifier, as it stands in a node.
pub record IsRecordKey (id type : ℕ) (key : Bytes) : Type 0 where
  pub size : key.size ≡ 8
  pub obj_id : j_key_obj_id (j_key key 0).0 ≡ id
  pub obj_type : j_key_obj_type (j_key key 0).0 ≡ type

pub record IsExtentKey (id offset : ℕ) (key : Bytes) : Type 0 where
  pub size : key.size ≡ 16
  pub obj_id : j_key_obj_id (j_file_extent_key key 0).0.hdr ≡ id
  pub obj_type : j_key_obj_type (j_file_extent_key key 0).0.hdr ≡ 8
  pub logical_addr : (j_file_extent_key key 0).0.logical_addr ≡ offset

word_below : (b : Bytes) (o : ℕ) → IsBytes b → word 8 b o < 2 ^ 64
word_below b o h = omega (arith, word-lt 8 b o h)

zero_further : (i : ℕ) → 0 + i ≡ i
zero_further i = omega arith

-- A stored word holds the bytes of a word in memory exactly when it is that word.
word-store_iff :
    (n : ℕ) (b : Bytes) (o : ℕ)
    → n < 2 ^ 64
    → IsBytes b
    → ((i : ℕ) → i < 8 → (store 8 n).byte i ≡ b.byte (o + i)) ↔ (n ≡ word 8 b o)
word-store_iff n b o fits h = (
  (λ same.
      sym (word-store 8 n (omega arith))
      ∙ word-congr 8 (store 8 n) b 0 o λ i hi. ap (store 8 n).byte (zero_further i) ∙ same i hi),
  (λ e i hi.
      ap (store 8 n).byte (sym (zero_further i))
      ∙ word-injective 8 (store 8 n) b 0 o (store-IsBytes 8 n) h (word-store 8 n (omega arith) ∙ e)
          i hi),
)

-- A key in memory holds the same bytes as the one that is built for a number and a kind below 16
-- exactly when it has 8 bytes and its two bit fields give the low 60 bits of the number and the
-- kind.
pub key_bytes-IsRecordKey :
    (inode type : ℕ) (key : Bytes)
    → type < 16
    → IsBytes key
    → SameBytes (key_bytes (make_key inode type)) key ↔ IsRecordKey (inode % 2 ^ 60) type key
unfolding key_bytes j_key
key_bytes-IsRecordKey inode type key small h =
    let n : ℕ = (make_key inode type).obj_id_and_type in
    let value = make_key_value inode type small in
    let fits : n < 2 ^ 64 = omega (arith, value) in
    let words = word-store_iff n key 0 fits h in
    let members =
      obj_id-and-type (j_key key 0).0 (inode % 2 ^ 60) type (word_below key 0 h) small
        (omega arith) in
    (
      (λ same.
          let (id, kind) =
            members.0
              (sym (words.0 (λ i hi. same.1 i hi ∙ ap key.byte (sym (zero_further i)))) ∙ value) in
          record { size = sym same.0; obj_id = id; obj_type = kind }),
      (λ is_key. (
        sym is_key.size,
        λ i hi.
            words.1 (value ∙ sym (members.1 (is_key.obj_id, is_key.obj_type))) i hi
            ∙ ap key.byte (zero_further i),
      )),
    )

extent-low :
    (k : JKey) (a i : ℕ)
    → i < 8
    → (extent_key_bytes k a).byte i ≡ (store 8 k.obj_id_and_type).byte i
unfolding extent_key_bytes join
extent-low k a i h = rw (lt→ltb i 8 h)

extent-high : (k : JKey) (a i : ℕ) → (extent_key_bytes k a).byte (8 + i) ≡ (store 8 a).byte i
unfolding extent_key_bytes join
extent-high k a i = rw (le→ltb (8 + i) 8 (omega arith)) (ap (store 8 a).byte (omega arith))

extent_size : (k : JKey) (a : ℕ) → (extent_key_bytes k a).size ≡ 16
unfolding extent_key_bytes join
extent_size k a = refl

-- The same for the key that is built for an extent: the offset is compared as well.
pub extent_key_bytes-IsExtentKey :
    (inode offset : ℕ) (key : Bytes)
    → offset < 2 ^ 64
    → IsBytes key
    → SameBytes (extent_key_bytes (make_key inode 8) offset) key
      ↔ IsExtentKey (inode % 2 ^ 60) offset key
unfolding j_file_extent_key j_key
extent_key_bytes-IsExtentKey inode offset key short h =
    let k = make_key inode 8 in
    let n : ℕ = k.obj_id_and_type in
    let value = make_key_value inode 8 (omega arith) in
    let fits : n < 2 ^ 64 = omega (arith, value) in
    let sized = extent_size k offset in
    let low = word-store_iff n key 0 fits h in
    let high = word-store_iff offset key 8 short h in
    let members =
      obj_id-and-type (j_file_extent_key key 0).0.hdr (inode % 2 ^ 60) 8 (word_below key 0 h)
        (omega arith) (omega arith) in
    (
      (λ same.
          let first = low.0 (λ i hi.
            sym (extent-low k offset i hi)
            ∙ same.1 i (omega (arith, hi, sized))
            ∙ ap key.byte (sym (zero_further i))) in
          let second =
            high.0
              (λ i hi. sym (extent-high k offset i) ∙ same.1 (8 + i) (omega (arith, hi, sized))) in
          let (id, kind) = members.0 (sym first ∙ value) in
          record {
            size = sym same.0 ∙ sized;
            obj_id = id;
            obj_type = kind;
            logical_addr = sym second;
          }),
      (λ is_key. (
        sized ∙ sym is_key.size,
        λ i hi. elim (dec_lt i 8) [
          | yes below ↦
              extent-low k offset i below
              ∙ low.1 (value ∙ sym (members.1 (is_key.obj_id, is_key.obj_type))) i below
              ∙ ap key.byte (zero_further i)
          | no past ↦
              let split : i ≡ 8 + (i - 8) = omega arith in
              ap (extent_key_bytes k offset).byte split
              ∙ extent-high k offset (i - 8)
              ∙ high.1 (sym is_key.logical_addr) (i - 8) (omega (arith, hi, sized))
              ∙ ap key.byte (sym split)
        ],
      )),
    )
