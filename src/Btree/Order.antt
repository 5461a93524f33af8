-- ===== src/Btree/Order.antt =====
-- `compareKeys` puts the keys in lexicographic order: by the first byte that differs, and a key before
-- every longer key that begins with it.
use native.Mathlib.Decide.{dec_lt, ℕ_discrete}
use Prim.Native.Nat.{compare}
use wamount.Base.{
  ℕ, zero, suc, ◌+◌, ◌≤◌, ◌<◌, ◌≡◌, refl, sym, ap, ◌∙◌, ◌⊎◌, inl, inr, ◌↔◌, min, arith, Ordering,
  Result, done, done-injective,
}
use wamount.Bytes.{Bytes, memcmp, memcmp_from}
use wamount.Bytes.Compare.{
  SameFrom, SameBytes, flip, memcmp_from-flip, memcmp_from-eq→same, same→memcmp_from-eq,
}
use wamount.Btree.{compare_keys}

-- The first difference of `a` and `b` from `i` on, before `end`, where `a` is smaller.
abbrev FirstBelow : ℕ → ℕ → Bytes → Bytes → Type 0
FirstBelow i end a b = (k : ℕ) × (i ≤ k) × (k < end) × SameFrom i k a b × (a.byte k < b.byte k)

not_first :
    (n : ℕ) (a b : Bytes) (i : ℕ)
    → memcmp_from (suc n) a b i ≡ Ordering.lt
    → ¬ (a.byte i < b.byte i)
    → (a.byte i ≡ b.byte i) × (memcmp_from n a b (i + 1) ≡ Ordering.lt)
unfolding memcmp_from
not_first n a b i e q = ground arith

SameFrom-cons :
    (i end : ℕ) (a b : Bytes) → a.byte i ≡ b.byte i → SameFrom (i + 1) end a b → SameFrom i end a b
SameFrom-cons i end a b e same k lo hi = elim (ℕ_discrete i k) [
  | yes p ↦ ap a.byte (sym p) ∙ e ∙ ap b.byte p
  | no q ↦ same k (omega arith) hi
]

memcmp_from-lt→first :
    (n : ℕ) (a b : Bytes) (i : ℕ) → memcmp_from n a b i ≡ Ordering.lt → FirstBelow i (i + n) a b
memcmp_from-lt→first zero a b i e = unfold memcmp_from in cc
memcmp_from-lt→first (suc n) a b i e = elim (dec_lt (a.byte i) (b.byte i)) [
  | yes p ↦ (i, omega arith, omega arith, λ k lo hi. absurd (omega arith), p)
  | no q ↦
      let (same, later) = not_first n a b i e q in
      let (k, lo, hi, rest, less) = memcmp_from-lt→first n a b (i + 1) later in
      (k, omega arith, omega arith, SameFrom-cons i k a b same rest, less)
]

first→memcmp_from-lt :
    (n : ℕ) (a b : Bytes) (i : ℕ) → FirstBelow i (i + n) a b → memcmp_from n a b i ≡ Ordering.lt
unfolding memcmp_from
first→memcmp_from-lt zero a b i (k, lo, hi, same, less) = absurd (omega arith)
first→memcmp_from-lt (suc n) a b i (k, lo, hi, same, less) = elim (ℕ_discrete i k) [
  | yes p ↦ ground (arith, ap a.byte p, ap b.byte p)
  | no q ↦ ground (
    arith,
    same i (omega arith) (omega arith),
    first→memcmp_from-lt n a b (i + 1)
        (k, omega arith, omega arith, (λ j lo hi. same j (omega arith) hi), less),
  )
]

-- `a` comes before `b`, as the definition above says it.
pub data Before (a b : Bytes) : Type 0 where
  differ : (k : ℕ) → k < a.size → k < b.size → SameFrom 0 k a b → a.byte k < b.byte k → Before a b
  prefix : a.size < b.size → SameFrom 0 a.size a b → Before a b

-- The order of two keys that are whole regions.
abbrev pub key_order : Bytes → Bytes → Result Ordering
key_order a b = compare_keys a a.size b b.size

pub by_size : Bytes → Bytes → Ordering → Ordering
by_size a b Ordering.lt = Ordering.lt
by_size a b Ordering.eq = compare a.size b.size
by_size a b Ordering.gt = Ordering.gt

-- The sizes decide where no byte in both differs. The call never reads outside the two keys.
pub key_order_value :
    (a b : Bytes) → key_order a b ≡ done (by_size a b (memcmp_from (min a.size b.size) a b 0))
unfolding compare_keys memcmp by_size
key_order_value a b = ground arith

pub Ordering-cases : (o : Ordering) → (o ≡ Ordering.lt) ⊎ ((o ≡ Ordering.eq) ⊎ (o ≡ Ordering.gt))
Ordering-cases Ordering.lt = inl refl
Ordering-cases Ordering.eq = inr (inl refl)
Ordering-cases Ordering.gt = inr (inr refl)

by_size-lt→Before :
    (a b : Bytes) → by_size a b (memcmp_from (min a.size b.size) a b 0) ≡ Ordering.lt → Before a b
unfolding by_size
by_size-lt→Before a b e = elim (Ordering-cases (memcmp_from (min a.size b.size) a b 0)) [
  | inl p ↦
      let (k, lo, hi, same, less) = memcmp_from-lt→first (min a.size b.size) a b 0 p in
      differ k (omega arith) (omega arith) same less
  | inr (inl p) ↦
      let same = memcmp_from-eq→same (min a.size b.size) a b 0 p in
      let shorter : a.size < b.size = ground arith in
      prefix shorter (λ k lo hi. same k lo (omega arith))
  | inr (inr p) ↦ absurd (ground arith)
]

Before→by_size-lt :
    (a b : Bytes) → Before a b → by_size a b (memcmp_from (min a.size b.size) a b 0) ≡ Ordering.lt
unfolding by_size
Before→by_size-lt a b (differ k ka kb same less) = rw (
  first→memcmp_from-lt (min a.size b.size) a b 0 (k, omega arith, omega arith, same, less),
  by_size,
)
Before→by_size-lt a b (prefix shorter same) =
    rw (same→memcmp_from-eq (min a.size b.size) a b 0 (λ k lo hi. same k lo (omega arith)), by_size)
      (ground arith)

-- The comparison of two whole keys reports the first as smaller exactly when it comes before the
-- second: at the first byte that differs it has the smaller one, or it is a shorter beginning of
-- the second.
key_order-lt_iff : (a b : Bytes) → (key_order a b ≡ done Ordering.lt) ↔ Before a b
key_order-lt_iff a b = (
  λ e. by_size-lt→Before a b (done-injective (sym (key_order_value a b) ∙ e)),
  λ h. key_order_value a b ∙ ap done (Before→by_size-lt a b h),
)

by_size-eq→SameBytes :
    (a b : Bytes)
    → by_size a b (memcmp_from (min a.size b.size) a b 0) ≡ Ordering.eq
    → SameBytes a b
unfolding by_size
by_size-eq→SameBytes a b e = elim (Ordering-cases (memcmp_from (min a.size b.size) a b 0)) [
  | inl p ↦ absurd (ground arith)
  | inr (inl p) ↦
      let sizes : a.size ≡ b.size = ground arith in
      let same = memcmp_from-eq→same (min a.size b.size) a b 0 p in
      (sizes, λ k hi. same k (omega arith) (omega arith))
  | inr (inr p) ↦ absurd (ground arith)
]

SameBytes→by_size-eq :
    (a b : Bytes)
    → SameBytes a b
    → by_size a b (memcmp_from (min a.size b.size) a b 0) ≡ Ordering.eq
unfolding by_size
SameBytes→by_size-eq a b (sizes, same) =
    rw (same→memcmp_from-eq (min a.size b.size) a b 0 (λ k lo hi. same k (omega arith)), by_size)
      (ground arith)

by_size-flip : (a b : Bytes) (o : Ordering) → by_size b a (flip o) ≡ flip (by_size a b o)
unfolding by_size
by_size-flip a b Ordering.lt = refl
by_size-flip a b Ordering.eq = ground arith
by_size-flip a b Ordering.gt = refl

min_swap : (m n : ℕ) → min m n ≡ min n m
min_swap m n = omega arith

-- The comparison of two whole keys reports them as equal exactly when they have the same size and
-- the same bytes.
pub key_order-eq_iff : (a b : Bytes) → (key_order a b ≡ done Ordering.eq) ↔ SameBytes a b
key_order-eq_iff a b = (
  λ e. by_size-eq→SameBytes a b (done-injective (sym (key_order_value a b) ∙ e)),
  λ h. key_order_value a b ∙ ap done (SameBytes→by_size-eq a b h),
)

-- Swapping the two keys of a comparison turns its answer round.
key_order-flip :
    (a b : Bytes) (o : Ordering) → key_order a b ≡ done o → key_order b a ≡ done (flip o)
key_order-flip a b o e =
    key_order_value b a
    ∙ ap done (
        ap (λ (n : ℕ). by_size b a (memcmp_from n b a 0)) (min_swap b.size a.size)
        ∙ ap (by_size b a) (memcmp_from-flip (min a.size b.size) a b 0)
        ∙ by_size-flip a b (memcmp_from (min a.size b.size) a b 0)
        ∙ ap flip (done-injective (sym (key_order_value a b) ∙ e)))

-- The order is transitive.
Before-trans : (a b c : Bytes) → Before a b → Before b c → Before a c
Before-trans a b c (differ j ja jb s l) (differ k kb kc s' l') = elim (dec_lt j k) [
  | yes p ↦
      differ j ja (omega arith) (λ i lo hi. s i lo hi ∙ s' i lo (omega arith))
        (omega (arith, s' j (omega arith) p))
  | no p ↦ elim (ℕ_discrete j k) [
    | yes q ↦
        differ j ja (omega arith) (λ i lo hi. s i lo hi ∙ s' i lo (omega arith))
          (omega (arith, ap b.byte q, ap c.byte q))
    | no q ↦
        differ k (omega arith) kc (λ i lo hi. s i lo (omega arith) ∙ s' i lo hi)
          (omega (arith, s k (omega arith) (omega arith)))
  ]
]
Before-trans a b c (differ j ja jb s l) (prefix h s') =
    differ j ja (omega arith) (λ i lo hi. s i lo hi ∙ s' i lo (omega arith))
      (omega (arith, s' j (omega arith) jb))
Before-trans a b c (prefix h s) (differ k kb kc s' l') = elim (dec_lt k a.size) [
  | yes p ↦
      differ k p kc (λ i lo hi. s i lo (omega arith) ∙ s' i lo hi)
        (omega (arith, s k (omega arith) p))
  | no p ↦ prefix (omega arith) (λ i lo hi. s i lo hi ∙ s' i lo (omega arith))
]
Before-trans a b c (prefix h s) (prefix h' s') =
    prefix (omega arith) (λ k lo hi. s k lo hi ∙ s' k lo (omega arith))

-- If the comparison reports a as smaller than b and b as smaller than c, it reports a as smaller
-- than c.
key_order_trans :
    (a b c : Bytes)
    → key_order a b ≡ done Ordering.lt
    → key_order b c ≡ done Ordering.lt
    → key_order a c ≡ done Ordering.lt
key_order_trans a b c p q =
    (key_order-lt_iff a c).1
      (Before-trans a b c ((key_order-lt_iff a b).0 p) ((key_order-lt_iff b c).0 q))
