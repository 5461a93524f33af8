-- ===== src/Btree/Records.antt =====
-- A search by a key that is built, told by what the key in the node says.
use native.Mathlib.Decide.{dec_lt}
use wamount.Base.{ℕ, ◌≤◌, ◌<◌, ◌≡◌, ◌≢◌, ◌↔◌, sym, ap, ◌∙◌, arith, Option, some, none, done, true}
use wamount.Bytes.{Bytes, IsBytes}
use wamount.Bytes.Compare.{SameBytes}
use wamount.Blocks.{Blocks}
use wamount.Btree.{Btree, lookup}
use wamount.Btree.Entries.{nkeys, key_at, value_at, IsWellFormed, IsTreeNode}
use wamount.Btree.Search.{FirstMatch}
use wamount.Btree.Lookup.{loaded, lookup-FirstMatch}

-- `r` is the value of the first entry whose key is as asked for, or there is none and `r` says so.
pub data FirstOf (node : Bytes) (IsKey : Bytes → Type 0) (r : Option Bytes) : Type 0 where
  hit :
      (i : ℕ)
      → i < nkeys node
      → IsKey (key_at node i)
      → ((j : ℕ) → j < i → ¬ IsKey (key_at node j))
      → r ≡ some (value_at node i)
      → FirstOf node IsKey r
  miss : ((j : ℕ) → j < nkeys node → ¬ IsKey (key_at node j)) → r ≡ none → FirstOf node IsKey r

key_at-IsBytes : (node : Bytes) (i : ℕ) → IsBytes node → IsBytes (key_at node i)
unfolding key_at
key_at-IsBytes node i h j = h _

FirstMatch→FirstOf :
    {node key : Bytes} {r : Option Bytes} (IsKey : Bytes → Type 0)
    → ((i : ℕ) → SameBytes key (key_at node i) ↔ IsKey (key_at node i))
    → FirstMatch node key r
    → FirstOf node IsKey r
FirstMatch→FirstOf IsKey same (FirstMatch.hit i h m earlier e) =
    FirstOf.hit i h ((same i).0 m) (λ j lt k. earlier j lt ((same j).1 k)) e
FirstMatch→FirstOf IsKey same (FirstMatch.miss none_has e) =
    FirstOf.miss (λ j lt k. none_has j lt ((same j).1 k)) e

-- The root of a tree as `lookup` finds it: it has an address, it is read, and it is a well-formed node
-- of bytes.
pub record IsRoot (t : Btree) (blocks : Blocks) : Type 0 where
  pub address : t.root_oid ≢ 0
  pub is_read : (blocks.read_block t.root_oid blocks.block_size).succeeded ≡ true
  pub well_formed : IsWellFormed (loaded blocks t.root_oid)
  pub tree_node : IsTreeNode (loaded blocks t.root_oid)
  pub bytes : IsBytes (loaded blocks t.root_oid)

pub lookup-FirstOf :
    (t : Btree) (blocks : Blocks) (key : Bytes) (IsKey : Bytes → Type 0)
    → IsRoot t blocks
    → ((k : Bytes) → IsBytes k → SameBytes key k ↔ IsKey k)
    → (r : Option Bytes) × (lookup t (some (some blocks)) key ≡ done r)
      × FirstOf (loaded blocks t.root_oid) IsKey r
lookup-FirstOf t blocks key IsKey root same =
    let (r, run, first) =
      lookup-FirstMatch t blocks key root.address root.is_read root.well_formed root.tree_node in
    (r, run, FirstMatch→FirstOf IsKey (λ i. same _ (key_at-IsBytes _ i root.bytes)) first)

earlier_excluded :
    (node : Bytes) (IsKey : Bytes → Type 0) (i j : ℕ)
    → IsKey (key_at node i)
    → ((k : ℕ) → k < j → ¬ IsKey (key_at node k))
    → j ≤ i
earlier_excluded node IsKey i j is_key excluded = elim (dec_lt i j) [
  | yes p ↦ absurd (excluded i p is_key)
  | no p ↦ omega arith
]

-- The records determine what is found.
pub FirstOf-unique :
    {node : Bytes} {IsKey : Bytes → Type 0} {r r' : Option Bytes}
    → FirstOf node IsKey r
    → FirstOf node IsKey r'
    → r ≡ r'
FirstOf-unique {node} {IsKey} (FirstOf.hit i h k x e) (FirstOf.hit j h' k' x' e') =
    let a : j ≤ i = earlier_excluded node IsKey i j k x' in
    let b : i ≤ j = earlier_excluded node IsKey j i k' x in
    let same : i ≡ j = omega (arith, a, b) in
    e ∙ ap (λ (n : ℕ). some (value_at node n)) same ∙ sym e'
FirstOf-unique (FirstOf.hit i h k x e) (FirstOf.miss none_has e') = absurd (none_has i h k)
FirstOf-unique (FirstOf.miss none_has e) (FirstOf.hit i h k x e') = absurd (none_has i h k)
FirstOf-unique (FirstOf.miss a e) (FirstOf.miss b e') = e ∙ sym e'
