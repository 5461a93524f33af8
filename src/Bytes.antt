-- ===== src/Bytes.antt =====
-- Memory as the program sees it through a pointer: a region of `size` bytes. Every read is checked
-- against the region; a read outside of it has no meaning (`fault`). Words are little-endian, as on
-- the machines that the program is built for. A `std::vector<uint8_t>` is such a region too.
pub mod Words
pub mod Compare
pub mod Strings
use wamount.Base.{
  ℕ, zero, suc, ◌+◌, ◌-◌, ◌*◌, ◌/◌, ◌%◌, ◌^◌, ◌<◌, ◌&&◌, Ordering, List, [], ◌∷◌, Result, done,
  fault, ◌>>=◌, ltb, leb, ◌==◌, if◌then◌else◌,
}
use Prim.Native.Nat.{compare}

-- What `byte` says past `size` means nothing, and no operation below lets it be seen.
pub record Bytes : Type 0 where
  pub size : ℕ
  pub byte : ℕ → ℕ

abbrev pub IsBytes : Bytes → Type 0
IsBytes b = (i : ℕ) → b.byte i < 256

-- `std::vector<uint8_t> buffer(n)`, or `memset(p, 0, n)`.
abbrev pub zeros : ℕ → Bytes
zeros n = record { size = n; byte = λ _. 0 }

-- `source` is written to the start of `target`. What does not fit is not in the result: `overrun`
-- says how many bytes were written past the end.
unfoldable pub fill : Bytes → Bytes → Bytes
fill target source = record target {
  byte = λ i. if ltb i source.size then source.byte i else target.byte i;
}

unfoldable pub overrun : Bytes → Bytes → ℕ
overrun target source = source.size - target.size

-- The region of `n` bytes from `offset` on, with no check.
abbrev pub region : Bytes → ℕ → ℕ → Bytes
region b offset n = record { size = n; byte = λ i. b.byte (offset + i) }

-- The same for code that reads it: the whole region has to be inside.
unfoldable pub window : Bytes → ℕ → ℕ → Result Bytes
window b offset n = if leb (offset + n) b.size then done (region b offset n) else fault

-- The unsigned integer of `width` bytes at `offset`, with no check.
unfoldable pub word : ℕ → Bytes → ℕ → ℕ
word zero b offset = 0
word (suc width) b offset = b.byte offset + 256 * word width b (offset + 1)

unfoldable pub load : ℕ → Bytes → ℕ → Result ℕ
load width b offset = if leb (offset + width) b.size then done (word width b offset) else fault

-- The `width` bytes that hold `n`, lowest first.
abbrev pub store : ℕ → ℕ → Bytes
store width n = record { size = width; byte = λ i. n / 256 ^ i % 256 }

-- Two regions one after the other, as the members of a packed struct.
unfoldable pub join : Bytes → Bytes → Bytes
join a b = record {
  size = a.size + b.size;
  byte = λ i. if ltb i a.size then a.byte i else b.byte (i - a.size);
}

-- The bytes from `offset` on as a list, for `std::string`.
unfoldable pub to_list : Bytes → ℕ → ℕ → List ℕ
to_list b offset zero = []
to_list b offset (suc n) = b.byte offset ∷ to_list b (offset + 1) n

-- The bytes up to the first zero, as `std::string(const char*)` reads them.
unfoldable pub c_string_from : ℕ → Bytes → ℕ → Result (List ℕ)
c_string_from zero b offset = fault
c_string_from (suc left) b offset =
    let rest = c_string_from left b (offset + 1) in
    if b.byte offset == 0 then done [] else rest >>= λ cs. done (b.byte offset ∷ cs)

unfoldable pub c_string : Bytes → Result (List ℕ)
unfolding c_string_from
c_string b = c_string_from b.size b 0

-- `memcmp` from two offsets: the order of the first bytes that differ. Only the sign of its result
-- is ever used, so the model returns that.
unfoldable pub memcmp_from : ℕ → Bytes → Bytes → ℕ → Ordering
memcmp_from zero a b i = Ordering.eq
memcmp_from (suc n) a b i = elim (compare (a.byte i) (b.byte i)) [
  | Ordering.lt ↦ Ordering.lt
  | Ordering.eq ↦ memcmp_from n a b (i + 1)
  | Ordering.gt ↦ Ordering.gt
]

unfoldable pub memcmp : ℕ → Bytes → Bytes → Result Ordering
unfolding memcmp_from
memcmp n a b = if leb n a.size && leb n b.size then done (memcmp_from n a b 0) else fault
