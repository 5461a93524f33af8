-- ===== src/Btree/Soundness.antt =====
-- `searchNode` on any block at all: what it returns stands in the block, under the key.
use wamount.Base.{
  ℕ, zero, suc, ◌+◌, ◌-◌, ◌≤◌, ◌<◌, ◌≡◌, sym, ap, ◌∙◌, inl, inr, arith, min, some, none, done, leb,
  leb→le, Ordering, Result-cases, Bool-cases,
}
use wamount.Bytes.{Bytes, region, window, memcmp, memcmp_from}
use wamount.Bytes.Compare.{SameBytes, memcmp_from-eq→same}
use wamount.Apfs.Layout.{view}
use wamount.Btree.{
  Place, compare_keys, onward, get_key_value, match_place, search_from, search_node,
}
use wamount.Btree.Entries.{nkeys, head}

memcmp-eq :
    (n : ℕ) (a b : Bytes)
    → memcmp n a b ≡ done Ordering.eq
    → (n ≤ a.size) × (n ≤ b.size) × (memcmp_from n a b 0 ≡ Ordering.eq)
unfolding memcmp
memcmp-eq n a b e = ground (arith, e)

compare_keys-eq :
    (a b : Bytes) (n m : ℕ)
    → compare_keys a n b m ≡ done Ordering.eq
    → (n ≡ m) × (memcmp n a b ≡ done Ordering.eq)
unfolding compare_keys
compare_keys-eq a b n m e = elim (Result-cases (memcmp (min n m) a b)) [
  | inl p ↦ absurd (ground (arith, p, e))
  | inr (Ordering.lt, p) ↦ absurd (ground (arith, p, e))
  | inr (Ordering.gt, p) ↦ absurd (ground (arith, p, e))
  | inr (Ordering.eq, p) ↦
      let same : n ≡ m = ground (arith, p, e) in
      let short : min n m ≡ n = omega (arith, same) in
      (same, ap (λ (k : ℕ). memcmp k a b) (sym short) ∙ p)
]

-- The entry `i` of the block has the key, and `value` is its value; both stand inside the block.
pub record Holds (node key : Bytes) (i : ℕ) (value : Bytes) : Type 0 where
  pub place : Place
  pub found : get_key_value node i ≡ done (some place)
  pub key_inside : place.key_len ≤ node.size - place.key
  pub same : SameBytes key (region node place.key place.key_len)
  pub value_inside : place.val + place.val_len ≤ node.size
  pub value_is : value ≡ region node place.val place.val_len

match_place-some :
    (node key value : Bytes) (p : Place)
    → match_place node key (some p) ≡ done (some value)
    → (compare_keys key key.size (onward node p.key) p.key_len ≡ done Ordering.eq)
      × (p.val + p.val_len ≤ node.size)
      × (value ≡ region node p.val p.val_len)
unfolding match_place window
match_place-some node key value p e =
    elim (Result-cases (compare_keys key key.size (onward node p.key) p.key_len)) [
      | inl q ↦ absurd (ground (arith, q, e))
      | inr (Ordering.lt, q) ↦ absurd (ground (arith, q, e))
      | inr (Ordering.gt, q) ↦ absurd (ground (arith, q, e))
      | inr (Ordering.eq, q) ↦ elim (Bool-cases (leb (p.val + p.val_len) node.size)) [
        | inr f ↦ absurd (ground (arith, q, f, e))
        | inl f ↦ (q, leb→le _ _ f, ground (arith, q, f, e))
      ]
    ]

match_place-Holds :
    (node key value : Bytes) (i : ℕ) (p : Place)
    → get_key_value node i ≡ done (some p)
    → match_place node key (some p) ≡ done (some value)
    → Holds node key i value
match_place-Holds node key value i p at e =
    let (equal, inside, is_value) = match_place-some node key value p e in
    let (sizes, compared) = compare_keys-eq key (onward node p.key) key.size p.key_len equal in
    let (whole, fits, bytes) = memcmp-eq key.size key (onward node p.key) compared in
    let same = memcmp_from-eq→same key.size key (onward node p.key) 0 bytes in
    record {
      place = p;
      found = at;
      key_inside = omega (arith, sizes, fits);
      same = (sizes, λ k h. same k (omega arith) (omega arith));
      value_inside = inside;
      value_is = is_value;
    }

search_from-Holds :
    (left i : ℕ) (node key value : Bytes)
    → search_from left i node key ≡ done (some value)
    → (j : ℕ) × (j < i + left) × Holds node key j value
unfolding search_from
search_from-Holds zero i node key value e = absurd (ground (arith, e))
search_from-Holds (suc left) i node key value e = elim (Result-cases (get_key_value node i)) [
  | inl p ↦ absurd (ground (arith, p, e))
  | inr (none, p) ↦
      let (j, below, holds) =
        search_from-Holds left (i + 1) node key value
          (unfold match_place in ground (arith, p, e)) in
      (j, omega arith, holds)
  | inr (some place, p) ↦ elim (Result-cases (match_place node key (some place))) [
    | inl q ↦ absurd (ground (arith, p, q, e))
    | inr (none, q) ↦
        let (j, below, holds) =
          search_from-Holds left (i + 1) node key value (ground (arith, p, q, e)) in
        (j, omega arith, holds)
    | inr (some found, q) ↦
        (i, omega arith, match_place-Holds node key value i place p (ground (arith, p, q, e)))
  ]
]

found_in :
    (node key value : Bytes)
    → search_node node key ≡ done (some value)
    → search_from (nkeys node) 0 node key ≡ done (some value)
unfolding search_node nkeys head view
found_in node key value e = ground (arith, e)

-- Whatever the block holds, a value that the search finds in it is that of an entry whose place is
-- below the number of keys, whose key and value lie inside the block, and whose key holds the same
-- bytes as the one searched for.
pub search_node-Holds :
    (node key value : Bytes)
    → search_node node key ≡ done (some value)
    → (i : ℕ) × (i < nkeys node) × Holds node key i value
search_node-Holds node key value e =
    let (i, below, holds) =
      search_from-Holds (nkeys node) 0 node key value (found_in node key value e) in
    (i, omega arith, holds)
