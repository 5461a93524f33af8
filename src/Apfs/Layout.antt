-- ===== src/Apfs/Layout.antt =====
-- Packed structs: the members follow one another with no gap, each of a fixed width. A layout reads
-- the members in order from an offset on, and says where the struct ends.
use wamount.Base.{ℕ, zero, suc, ◌+◌, List, [], ◌∷◌, Result, done, fault, leb, if◌then◌else◌}
use wamount.Bytes.{Bytes, word, region, zeros}

abbrev pub Layout : Type 0 → Type 0
Layout A = Bytes → ℕ → A × ℕ

infixl 5 ◌>>=◌
abbrev pub ◌>>=◌ : {A B : Type 0} → Layout A → (A → Layout B) → Layout B
◌>>=◌ m f b o = f (m b o).0 b (m b o).1

abbrev pub member : {A : Type 0} → A → Layout A
member a b o = (a, o)

-- An unsigned integer of `width` bytes.
abbrev pub uint : ℕ → Layout ℕ
uint width b o = (word width b o, o + width)

-- `uint8_t x[n]`
abbrev pub uint8s : ℕ → Layout Bytes
uint8s n b o = (region b o n, o + n)

-- `T x[n]`
unfoldable pub array : {A : Type 0} → ℕ → Layout A → Layout (List A)
array zero m b o = ([], o)
array (suc n) m b o = let rest = array n m b (m b o).1 in ((m b o).0 ∷ rest.0, rest.1)

-- `sizeof(T)`
abbrev pub sizeof : {A : Type 0} → Layout A → ℕ
sizeof m = (m (zeros 0) 0).1

-- An access through a pointer to a struct, or a `memcpy` out of a buffer: the whole struct has to lie
-- inside the memory that is read.
unfoldable pub view : {A : Type 0} → Layout A → Bytes → ℕ → Result A
view m b o = if leb (m b o).1 b.size then done (m b o).0 else fault
