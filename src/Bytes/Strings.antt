-- ===== src/Bytes/Strings.antt =====
-- A string in memory ends at its first zero.
use wamount.Base.{ℕ, zero, suc, ◌+◌, ◌<◌, ◌≡◌, ◌≢◌, ap, ◌∙◌, arith, done}
use wamount.Bytes.{Bytes, c_string_from, c_string, to_list}

-- The bytes from `o` on are `n` that are not zero, and then a zero.
pub record EndsAt (b : Bytes) (o n : ℕ) : Type 0 where
  pub zero_byte : b.byte (o + n) ≡ 0
  pub others : (i : ℕ) → i < n → b.byte (o + i) ≢ 0

c_string_from-EndsAt :
    (left n : ℕ) (b : Bytes) (o : ℕ)
    → n < left
    → EndsAt b o n
    → c_string_from left b o ≡ done (to_list b o n)
unfolding c_string_from to_list
c_string_from-EndsAt zero n b o h ends = absurd (omega arith)
c_string_from-EndsAt (suc left) zero b o h ends =
    ground (arith, ends.zero_byte, ap b.byte (at_zero o))
  where
    at_zero : (o : ℕ) → o + 0 ≡ o
    at_zero o = omega arith
c_string_from-EndsAt (suc left) (suc n) b o h ends =
    let first : b.byte o ≢ 0 = λ e. ends.others 0 (omega arith) (ap b.byte (at_zero o) ∙ e) in
    let rest = c_string_from-EndsAt left n b (o + 1) (omega arith) (record {
      zero_byte = ap b.byte (further o n) ∙ ends.zero_byte;
      others = λ i lt e. ends.others (suc i) (omega arith) (ap b.byte (further' o i) ∙ e);
    }) in
    ground (arith, first, rest)
  where
    at_zero : (o : ℕ) → o + 0 ≡ o
    at_zero o = omega arith

    further : (o n : ℕ) → o + 1 + n ≡ o + suc n
    further o n = omega arith

    further' : (o n : ℕ) → o + suc n ≡ o + 1 + n
    further' o n = omega arith

pub c_string-EndsAt :
    (b : Bytes) (n : ℕ) → n < b.size → EndsAt b 0 n → c_string b ≡ done (to_list b 0 n)
unfolding c_string
c_string-EndsAt b n h ends = c_string_from-EndsAt b.size n b 0 h ends
