-- ===== src/Btree/Search.antt =====
-- `searchNode` on a node that is well formed: it ends, reads nothing outside the node, and finds the
-- first entry whose key holds the same bytes.
use native.Mathlib.Decide.{ℕ_discrete}
use wamount.Base.{
  ℕ, zero, suc, ◌+◌, ◌%◌, ◌^◌, ◌≤◌, ◌<◌, ◌≡◌, ◌≢◌, refl, sym, ap, subst, ◌∙◌, inl, inr, arith, min,
  Option, some, none, done, done-injective, fault, le→leb, Ordering, bit_and, ==_ne, ◌>>=◌,
  if◌then◌else◌,
}
use wamount.Base.Bits.{bit_and_mask}
use wamount.Bytes.{Bytes, region, window, memcmp, memcmp_from}
use wamount.Bytes.Compare.{SameBytes}
use wamount.Btree.{toc_at, compare_keys, onward, is_eq, match_place, search_from, search_node}
use wamount.Btree.Order.{key_order, key_order_value, key_order-eq_iff, by_size, Ordering-cases}
use wamount.Btree.Entries.{
  head, nkeys, key_at, value_at, place, toc, IsTreeNode, IsWellFormed, head-eq-done,
  get_key_value-place, get_key_value-fault,
}

-- `r` is the value of the first entry with the key, or there is none and `r` says so.
pub data FirstMatch (node key : Bytes) (r : Option Bytes) : Type 0 where
  hit :
      (i : ℕ)
      → i < nkeys node
      → SameBytes key (key_at node i)
      → ((j : ℕ) → j < i → ¬ SameBytes key (key_at node j))
      → r ≡ some (value_at node i)
      → FirstMatch node key r
  miss :
      ((j : ℕ) → j < nkeys node → ¬ SameBytes key (key_at node j))
      → r ≡ none
      → FirstMatch node key r

memcmp_from-congr :
    (n : ℕ) (a b c : Bytes) (i : ℕ)
    → ((k : ℕ) → b.byte k ≡ c.byte k)
    → memcmp_from n a b i ≡ memcmp_from n a c i
unfolding memcmp_from
memcmp_from-congr zero a b c i h = refl
memcmp_from-congr (suc n) a b c i h = ground (arith, h i, memcmp_from-congr n a b c (i + 1) h)

-- Comparing up to the node's end is comparing with the key alone, if the key is inside.
compare_keys-onward :
    (key node : Bytes) (offset len : ℕ)
    → offset + len ≤ node.size
    → compare_keys key key.size (onward node offset) len ≡ key_order key (region node offset len)
unfolding compare_keys memcmp
compare_keys-onward key node offset len h = ground (
  arith,
  memcmp_from-congr (min key.size len) key (onward node offset) (region node offset len) 0
      (λ k. refl),
)

match_place-same :
    (node key : Bytes) (i : ℕ)
    → IsWellFormed node
    → i < nkeys node
    → SameBytes key (key_at node i)
    → match_place node key (some (place node i)) ≡ done (some (value_at node i))
unfolding match_place place window key_at value_at
match_place-same node key i w h same =
    rw
      (
        compare_keys-onward key node (toc node i).off (toc node i).len (w.keys i h),
        (key_order-eq_iff key (key_at node i)).1 same,
      )
      (rw (le→leb _ _ (w.values i h)))

match_place-differ :
    (node key : Bytes) (i : ℕ)
    → IsWellFormed node
    → i < nkeys node
    → ¬ SameBytes key (key_at node i)
    → match_place node key (some (place node i)) ≡ done none
unfolding match_place place key_at
match_place-differ node key i w h differ =
    rw
      (
        compare_keys-onward key node (toc node i).off (toc node i).len (w.keys i h),
        key_order_value key (key_at node i),
      )
      (not_equal (by_size key (key_at node i) _) λ e. differ (
        (key_order-eq_iff key (key_at node i)).0 (key_order_value key (key_at node i) ∙ ap done e)))
  where
    not_equal :
        (o : Ordering)
        → o ≢ Ordering.eq
        → (if is_eq o
            then (window node (place node i).val (place node i).val_len >>= λ value.
                done (some value))
            else done none)
          ≡ done none
    not_equal Ordering.lt n = refl
    not_equal Ordering.eq n = absurd (n refl)
    not_equal Ordering.gt n = refl

SameBytes_dec : (a b : Bytes) → Dec (SameBytes a b)
SameBytes_dec a b = elim (Ordering-cases (by_size a b (memcmp_from (min a.size b.size) a b 0))) [
  | inl p ↦ no (λ s. unequal p (λ e. cc) s)
  | inr (inl p) ↦ yes ((key_order-eq_iff a b).0 (key_order_value a b ∙ ap done p))
  | inr (inr p) ↦ no (λ s. unequal p (λ e. cc) s)
]
  where
    unequal :
        {o : Ordering}
        → by_size a b (memcmp_from (min a.size b.size) a b 0) ≡ o
        → ¬ (o ≡ Ordering.eq)
        → ¬ SameBytes a b
    unequal p n s =
        n (
          done-injective (ap done (sym p) ∙ sym (key_order_value a b) ∙ (key_order-eq_iff a b).1 s))

-- Entries that do not match are passed over, and the first that does ends the loop.
search_from-FirstMatch :
    (left i : ℕ) (node key : Bytes)
    → IsWellFormed node
    → i + left ≡ nkeys node
    → ((j : ℕ) → j < i → ¬ SameBytes key (key_at node j))
    → (r : Option Bytes) × (search_from left i node key ≡ done r) × FirstMatch node key r
unfolding search_from
search_from-FirstMatch zero i node key w e earlier =
    (none, refl, miss (λ j h. earlier j (omega arith)) refl)
search_from-FirstMatch (suc left) i node key w e earlier =
    elim (SameBytes_dec key (key_at node i)) [
      | yes same ↦ (
        some (value_at node i),
        rw (
          get_key_value-place node i w (omega arith),
          match_place-same node key i w (omega arith) same,
        ),
        hit i (omega arith) same earlier refl,
      )
      | no differ ↦
          let still : (j : ℕ) → j < i + 1 → ¬ SameBytes key (key_at node j) = not_up_to differ in
          let (r, run, first) =
            search_from-FirstMatch left (i + 1) node key w (omega arith) still in
          (
            r,
            rw
                (
                  get_key_value-place node i w (omega arith),
                  match_place-differ node key i w (omega arith) differ,
                )
                run,
            first,
          )
    ]
  where
    not_up_to :
        ¬ SameBytes key (key_at node i) → (j : ℕ) → j < i + 1 → ¬ SameBytes key (key_at node j)
    not_up_to differ j h = elim (ℕ_discrete j i) [
      | yes p ↦ subst (λ k. ¬ SameBytes key (key_at node k)) (sym p) differ
      | no q ↦ earlier j (omega arith)
    ]

type_bits :
    (node : Bytes) → bit_and (head node).btn_o.o_type 0xffff ≡ (head node).btn_o.o_type % 2 ^ 16
type_bits node = bit_and_mask 16 (head node).btn_o.o_type

search_node-eq-search_from :
    (node key : Bytes)
    → 56 ≤ node.size
    → IsTreeNode node
    → search_node node key ≡ search_from (nkeys node) 0 node key
unfolding search_node nkeys
search_node-eq-search_from node key h (inl e) = rw (head-eq-done node h, type_bits node, e)
search_node-eq-search_from node key h (inr e) = rw (head-eq-done node h, type_bits node, e)

-- On a well-formed node whose type is that of a tree's node, the search ends without a read outside
-- the node, with the value of the first entry whose key holds the same bytes, or with nothing if no
-- entry has such a key.
pub search_node-FirstMatch :
    (node key : Bytes)
    → IsWellFormed node
    → IsTreeNode node
    → (r : Option Bytes) × (search_node node key ≡ done r) × FirstMatch node key r
search_node-FirstMatch node key w t =
    let (r, run, first) =
      search_from-FirstMatch (nkeys node) 0 node key w (omega arith)
        (λ j h. absurd (omega arith)) in
    (r, search_node-eq-search_from node key (omega (arith, w.table)) t ∙ run, first)

-- A block with room for a node's head whose type is not that of a tree's node gives nothing for any
-- key.
search_node-other_type :
    (node key : Bytes) → 56 ≤ node.size → ¬ IsTreeNode node → search_node node key ≡ done none
unfolding search_node
search_node-other_type node key h other = rw (
  head-eq-done node h,
  type_bits node,
  ==_ne _ _ (λ e. other (inl e)),
  ==_ne _ _ (λ e. other (inr e)),
)

-- On a node of a tree with room for its head that has at least one and fewer than 2^32 keys, but
-- ends before the first entry of the table's second half does, the search reads outside the node,
-- whatever the key.
pub search_node-fault :
    (node key : Bytes)
    → 56 ≤ node.size
    → IsTreeNode node
    → 0 < nkeys node
    → nkeys node < 2 ^ 32
    → node.size < toc_at (nkeys node) + 4
    → search_node node key ≡ fault
search_node-fault node key h t some_key small past =
    search_node-eq-search_from node key h t ∙ loop (nkeys node) refl
  where
    loop : (n : ℕ) → n ≡ nkeys node → search_from n 0 node key ≡ fault
    loop zero e = absurd (omega arith)
    loop (suc n) e = unfold search_from in rw (get_key_value-fault node h some_key small past)
