-- ===== src/Bytes/Compare.antt =====
-- `memcmp` on regions of one size decides whether they hold the same bytes, and orders them.
use native.Mathlib.Decide.{ℕ_discrete}
use wamount.Base.{ℕ, zero, suc, ◌+◌, ◌≤◌, ◌<◌, ◌≡◌, refl, sym, ap, ◌∙◌, arith, Ordering}
use wamount.Bytes.{Bytes, memcmp_from}

-- The bytes from `i` up to `end` are the same.
abbrev pub SameFrom : ℕ → ℕ → Bytes → Bytes → Type 0
SameFrom i end a b = (k : ℕ) → i ≤ k → k < end → a.byte k ≡ b.byte k

-- Two regions hold the same bytes.
abbrev pub SameBytes : Bytes → Bytes → Type 0
SameBytes a b = (a.size ≡ b.size) × ((k : ℕ) → k < a.size → a.byte k ≡ b.byte k)

memcmp_from-eq_suc :
    (n : ℕ) (a b : Bytes) (i : ℕ)
    → memcmp_from (suc n) a b i ≡ Ordering.eq
    → (a.byte i ≡ b.byte i) × (memcmp_from n a b (i + 1) ≡ Ordering.eq)
unfolding memcmp_from
memcmp_from-eq_suc n a b i e = ground arith

pub memcmp_from-eq→same :
    (n : ℕ) (a b : Bytes) (i : ℕ) → memcmp_from n a b i ≡ Ordering.eq → SameFrom i (i + n) a b
unfolding memcmp_from
memcmp_from-eq→same zero a b i e k lo hi = absurd (omega arith)
memcmp_from-eq→same (suc n) a b i e k lo hi =
    let (first, others) = memcmp_from-eq_suc n a b i e in
    elim (ℕ_discrete i k) [
      | yes p ↦ ap a.byte (sym p) ∙ first ∙ ap b.byte p
      | no q ↦ memcmp_from-eq→same n a b (i + 1) others k (omega arith) (omega arith)
    ]

pub same→memcmp_from-eq :
    (n : ℕ) (a b : Bytes) (i : ℕ) → SameFrom i (i + n) a b → memcmp_from n a b i ≡ Ordering.eq
unfolding memcmp_from
same→memcmp_from-eq zero a b i h = refl
same→memcmp_from-eq (suc n) a b i h = ground (
  arith,
  h i (omega arith) (omega arith),
  same→memcmp_from-eq n a b (i + 1) λ k lo hi. h k (omega arith) (omega arith),
)

-- Swapping the arguments turns the order round.
abbrev pub flip : Ordering → Ordering
flip Ordering.lt = Ordering.gt
flip Ordering.eq = Ordering.eq
flip Ordering.gt = Ordering.lt

pub memcmp_from-flip :
    (n : ℕ) (a b : Bytes) (i : ℕ) → memcmp_from n b a i ≡ flip (memcmp_from n a b i)
unfolding memcmp_from
memcmp_from-flip zero a b i = refl
memcmp_from-flip (suc n) a b i = ground (arith, memcmp_from-flip n a b (i + 1))

-- Order by the first difference is transitive, also where one of the two steps is an equality.
pub memcmp_from_trans :
    (n : ℕ) (a b c : Bytes) (i : ℕ)
    → memcmp_from n a b i ≡ Ordering.lt
    → memcmp_from n b c i ≡ Ordering.lt
    → memcmp_from n a c i ≡ Ordering.lt
unfolding memcmp_from
memcmp_from_trans zero a b c i p q = p
memcmp_from_trans (suc n) a b c i p q = ground (arith, memcmp_from_trans n a b c (i + 1))
