-- ===== src/Bytes/Words.antt =====
-- Words in memory: what is stored is what is read, and it fits its width.
use native.Mathlib.Nat.{
  pow-suc, one-le-pow, mod-lt, div-add-mod', div-div-eq-div-mul, mod-eq_of_lt,
  mul-add-mod_self_left, mul_comm, add-zero, div-one,
}
use native.Mathlib.Numerals.{add-one}
use wamount.Base.{
  ℕ, zero, suc, ◌+◌, ◌*◌, ◌/◌, ◌%◌, ◌^◌, ◌≤◌, ◌<◌, ◌≡◌, refl, sym, ap, ◌∙◌, arith, done, fault,
  le→leb, lt→leb,
}
use wamount.Bytes.{Bytes, IsBytes, word, load, store}

-- A word of `w` bytes is below 256 ^ w.
pub word-lt : (w : ℕ) (b : Bytes) (o : ℕ) → IsBytes b → word w b o < 256 ^ w
unfolding word
word-lt zero b o h = omega arith
word-lt (suc w) b o h = omega (arith, h o, word-lt w b (o + 1) h, pow-suc 256 w)

one_further : (o i : ℕ) → o + 1 + i ≡ o + (i + 1)
one_further o i = omega arith

-- It reads the bytes from `o` up to `o + w`, and nothing else.
pub word-congr :
    (w : ℕ) (b c : Bytes) (o p : ℕ)
    → ((i : ℕ) → i < w → b.byte (o + i) ≡ c.byte (p + i))
    → word w b o ≡ word w c p
unfolding word
word-congr zero b c o p h = refl
word-congr (suc w) b c o p h = ground (
  arith,
  ap b.byte (add-zero o),
  ap c.byte (add-zero p),
  h 0,
  word-congr w b c (o + 1) (p + 1) λ i hi.
      ap b.byte (one_further o i) ∙ h (i + 1) (omega arith) ∙ ap c.byte (sym (one_further p i)),
)

-- The lowest digit to the base 256, and the digits above it.
digit_split : (n p : ℕ) → 1 ≤ p → n % 256 + 256 * (n / 256 % p) ≡ n % (256 * p)
digit_split n p h =
    let low : ℕ = n % 256 + 256 * (n / 256 % p) in
    let whole : n ≡ 256 * p * (n / 256 / p) + low =
      omega (arith, ap (λ (t : ℕ). 256 * t) (div-add-mod' (n / 256) p)) in
    let fits : low < 256 * p = omega (arith, mod-lt (n / 256) h) in
    sym (
      ap (λ (t : ℕ). t % (256 * p)) whole
      ∙ mul-add-mod_self_left (256 * p) (n / 256 / p) low
      ∙ mod-eq_of_lt fits)

next_digit : (n o : ℕ) → n / 256 ^ (o + 1) ≡ n / 256 ^ o / 256
next_digit n o = rw (add-one, pow-suc) (sym (div-div-eq-div-mul n (256 ^ o) 256))

word-store_from : (w k n o : ℕ) → word w (store k n) o ≡ n / 256 ^ o % 256 ^ w
unfolding word
word-store_from zero k n o = omega arith
word-store_from (suc w) k n o = omega (
  arith,
  word-store_from w k n (o + 1),
  ap (λ (t : ℕ). t % 256 ^ w) (next_digit n o),
  digit_split (n / 256 ^ o) (256 ^ w) (one-le-pow w 256 (omega arith)),
  ap (λ (t : ℕ). n / 256 ^ o % t) (pow-suc 256 w ∙ mul_comm (256 ^ w) 256),
)

-- A word that fits is read back as it was stored.
pub word-store : (w n : ℕ) → n < 256 ^ w → word w (store w n) 0 ≡ n
word-store w n h =
    word-store_from w w n 0 ∙ ap (λ (t : ℕ). t % 256 ^ w) (div-one n) ∙ mod-eq_of_lt h

pub store-IsBytes : (w n : ℕ) → IsBytes (store w n)
store-IsBytes w n i = omega arith

pub load-eq-done : (w : ℕ) (b : Bytes) (o : ℕ) → o + w ≤ b.size → load w b o ≡ done (word w b o)
unfolding load
load-eq-done w b o h = rw (le→leb _ _ h)

pub load-eq-fault : (w : ℕ) (b : Bytes) (o : ℕ) → b.size < o + w → load w b o ≡ fault
unfolding load
load-eq-fault w b o h = rw (lt→leb _ _ h)
