-- ===== src/Volume/Inode/Xfields.antt =====
-- The extended fields of an inode: a chain of records, each as long as its head says. The loop walks
-- the chain to the first data stream, stays inside the value and comes to an end.
use native.Mathlib.Decide.{dec_le, ℕ_discrete}
use wamount.Base.{
  ℕ, zero, suc, ◌+◌, ◌≤◌, ◌<◌, ◌≡◌, ◌≢◌, refl, ◌∙◌, arith, done, le→leb, lt→leb, ==_ne,
}
use wamount.Bytes.{Bytes}
use wamount.Apfs.Layout.{view}
use wamount.Apfs.Records.{XField, JDstream, x_field, j_dstream}
use wamount.Apfs.Sizes.{sizeof_x_field, sizeof_j_dstream}
use wamount.Volume.Inode.{ino_ext_type_dstream, dstream_size}

-- The head of the field at an offset, and the data stream at one, wherever they lie.
unfoldable pub field_at : Bytes → ℕ → XField
field_at value o = (x_field value o).0

unfoldable pub dstream_at : Bytes → ℕ → JDstream
dstream_at value o = (j_dstream value o).0

-- From the field at `start` on, the chain leads to `stop` over fields that are no data streams.
pub data Chain (value : Bytes) (stop : ℕ) : ℕ → Type 0 where
  here : Chain value stop stop
  next :
      (start : ℕ)
      → start + sizeof_x_field ≤ value.size
      → (field_at value start).x_type ≢ ino_ext_type_dstream
      → Chain value stop (start + (sizeof_x_field + (field_at value start).x_size))
      → Chain value stop start

-- What the size of the file is, by the chain from `start` on.
pub data Size (value : Bytes) (start : ℕ) (size : ℕ) : Type 0 where
  stream :
      (o : ℕ)
      → Chain value o start
      → o + sizeof_x_field + sizeof_j_dstream ≤ value.size
      → (field_at value o).x_type ≡ ino_ext_type_dstream
      → size ≡ (dstream_at value (o + sizeof_x_field)).size
      → Size value start size
  cut_off :
      (o : ℕ)
      → Chain value o start
      → o + sizeof_x_field ≤ value.size
      → value.size < o + sizeof_x_field + sizeof_j_dstream
      → (field_at value o).x_type ≡ ino_ext_type_dstream
      → size ≡ 0
      → Size value start size
  no_stream :
      (o : ℕ)
      → Chain value o start
      → value.size < o + sizeof_x_field
      → size ≡ 0
      → Size value start size

pub view_field :
    (value : Bytes) (o : ℕ)
    → o + sizeof_x_field ≤ value.size
    → view x_field value o ≡ done (field_at value o)
unfolding view x_field field_at
view_field value o h = rw (le→leb _ _ (fits o h))
  where
    fits : (k : ℕ) → k + 4 ≤ value.size → k + 1 + 1 + 2 ≤ value.size
    fits k p = omega arith

view_dstream :
    (value : Bytes) (o : ℕ)
    → o + sizeof_j_dstream ≤ value.size
    → view j_dstream value o ≡ done (dstream_at value o)
unfolding view j_dstream dstream_at
view_dstream value o h = rw (le→leb _ _ (fits o h))
  where
    fits : (k : ℕ) → k + 40 ≤ value.size → k + 8 + 8 + 8 + 8 + 8 ≤ value.size
    fits k p = omega arith

Size-next :
    {value : Bytes} (start size : ℕ)
    → start + sizeof_x_field ≤ value.size
    → (field_at value start).x_type ≢ ino_ext_type_dstream
    → Size value (start + (sizeof_x_field + (field_at value start).x_size)) size
    → Size value start size
Size-next start size h other (stream o c f t e) = stream o (next start h other c) f t e
Size-next start size h other (cut_off o c f g t e) = cut_off o (next start h other c) f g t e
Size-next start size h other (no_stream o c f e) = no_stream o (next start h other c) f e

-- One round of the loop, in each of its four cases.
module _ (rounds : ℕ) (value : Bytes) (start : ℕ) where
  round_past : value.size < start + sizeof_x_field → dstream_size (suc rounds) value start ≡ done 0
  unfolding dstream_size
  round_past h = rw (lt→leb (start + sizeof_x_field) value.size h)

  module _ (inside : start + sizeof_x_field ≤ value.size) where
    round_other :
        (field_at value start).x_type ≢ ino_ext_type_dstream
        → dstream_size (suc rounds) value start
          ≡ dstream_size rounds value (start + (sizeof_x_field + (field_at value start).x_size))
    unfolding dstream_size
    round_other h = rw (
      le→leb (start + sizeof_x_field) value.size inside,
      view_field value start inside,
      ==_ne _ _ h,
    )

    round_stream :
        (field_at value start).x_type ≡ ino_ext_type_dstream
        → start + sizeof_x_field + sizeof_j_dstream ≤ value.size
        → dstream_size (suc rounds) value start
          ≡ done (dstream_at value (start + sizeof_x_field)).size
    unfolding dstream_size
    round_stream h fits = rw (
      le→leb (start + sizeof_x_field) value.size inside,
      view_field value start inside,
      h,
      le→leb _ _ fits,
      view_dstream value (start + sizeof_x_field) fits,
    )

    round_cut_off :
        (field_at value start).x_type ≡ ino_ext_type_dstream
        → value.size < start + sizeof_x_field + sizeof_j_dstream
        → dstream_size (suc rounds) value start ≡ done 0
    unfolding dstream_size
    round_cut_off h past = rw (
      le→leb (start + sizeof_x_field) value.size inside,
      view_field value start inside,
      h,
      lt→leb (start + sizeof_x_field + sizeof_j_dstream) value.size past,
    )

-- With more rounds than there are bytes from the start to the end of the value, and at least one,
-- the loop over the extended fields ends without a read outside the value, and its result is the
-- size that the chain of fields determines: that of the first data stream if it is whole, and 0 if
-- it is cut off or if the chain ends without one.
pub dstream_size-Size :
    (rounds : ℕ) (value : Bytes) (start : ℕ)
    → 0 < rounds
    → value.size < start + rounds
    → (size : ℕ) × (dstream_size rounds value start ≡ done size) × Size value start size
dstream_size-Size zero value start some_round enough = absurd (omega arith)
dstream_size-Size (suc rounds) value start some_round enough =
    elim (dec_le (start + sizeof_x_field) value.size) [
      | no past ↦
          (0, round_past rounds value start (omega arith), no_stream start here (omega arith) refl)
      | yes inside ↦ elim (ℕ_discrete (field_at value start).x_type ino_ext_type_dstream) [
        | no other ↦
            let (size, run, found) =
              dstream_size-Size rounds value
                (start + (sizeof_x_field + (field_at value start).x_size)) (omega arith)
                (omega arith) in
            (
              size,
              round_other rounds value start inside other ∙ run,
              Size-next start size inside other found,
            )
        | yes is_stream ↦ elim (dec_le (start + sizeof_x_field + sizeof_j_dstream) value.size) [
          | yes fits ↦ (
            (dstream_at value (start + sizeof_x_field)).size,
            round_stream rounds value start inside is_stream fits,
            stream start here fits is_stream refl,
          )
          | no past ↦ (
            0,
            round_cut_off rounds value start inside is_stream (omega arith),
            cut_off start here inside (omega arith) is_stream refl,
          )
        ]
      ]
    ]
