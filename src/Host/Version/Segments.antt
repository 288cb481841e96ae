-- ===== src/Host/Version/Segments.antt =====
-- host/register.go, versionAtLeast: the number that a segment of a version stands for.
use egop.Prelude.{
  Text, ℕ, suc, ◌+◌, ◌-◌, ◌*◌, ◌==◌, ◌≤◌, ◌<◌, ltb, leb, if_either, Bool-cases, false, ◌&&◌, [],
  ◌∷◌, ◌++◌, Option, none, some, ◌≡◌, ◌≢◌, sym, subst, inl, inr, arith,
}
use egop.Host.Version.{ℤ, pos, negsuc, parse_uint, parse_digits, positive, negative, atoi}

abbrev pub AreDigits : Text → Type 0
AreDigits [] = Unit
AreDigits (d ∷ ds) = (b'0' ≤ d) × (d ≤ b'9') × AreDigits ds

-- The number that decimal digits write, after the digits of `n`.
unfoldable pub decimal : ℕ → Text → ℕ
decimal n [] = n
decimal n (d ∷ ds) = decimal (n * 10 + (d - b'0')) ds

-- What strconv.ParseUint makes of a text after the digits of `n`: digits alone are their number; digits
-- past the range of uint64 the largest one, whatever follows; anything else is no number.
pub data Magnitude (n : ℕ) : Text → Option ℕ → Type 0 where
  digits :
      (ds : Text)
      → AreDigits ds
      → decimal n ds < 18446744073709551616
      → Magnitude n ds (some (decimal n ds))
  too_large :
      (ds rest : Text)
      → AreDigits ds
      → 18446744073709551616 ≤ decimal n ds
      → Magnitude n (ds ++ rest) (some 18446744073709551615)
  no_number :
      (ds : Text) (c : ℕ) (rest : Text)
      → AreDigits ds
      → decimal n ds < 18446744073709551616
      → (leb b'0' c && leb c b'9') ≡ false
      → Magnitude n (ds ++ c ∷ rest) none

pub data Unsigned : Text → Option ℕ → Type 0 where
  blank : Unsigned [] none
  run : (c : ℕ) (t : Text) {o : Option ℕ} → Magnitude 0 (c ∷ t) o → Unsigned (c ∷ t) o

-- The nearest int64 of a magnitude without a minus and with one; 0 where there is none.
pub data Above : Option ℕ → ℤ → Type 0 where
  no_value : Above none (pos 0)
  in_range : (n : ℕ) → n < 9223372036854775808 → Above (some n) (pos n)
  largest : (n : ℕ) → 9223372036854775808 ≤ n → Above (some n) (pos 9223372036854775807)

pub data Below : Option ℕ → ℤ → Type 0 where
  no_value : Below none (pos 0)
  nought : Below (some 0) (pos 0)
  in_range : (n : ℕ) → n < 9223372036854775808 → Below (some (suc n)) (negsuc n)
  smallest : (n : ℕ) → 9223372036854775808 ≤ n → Below (some (suc n)) (negsuc 9223372036854775807)

-- What a trimmed segment stands for: a decimal number with an optional sign, kept within int64; a
-- segment that is no number stands for 0.
pub data Reads : Text → ℤ → Type 0 where
  nothing : Reads [] (pos 0)
  minus : (t : Text) (o : Option ℕ) (z : ℤ) → Unsigned t o → Below o z → Reads (b'-' ∷ t) z
  plus : (t : Text) (o : Option ℕ) (z : ℤ) → Unsigned t o → Above o z → Reads (b'+' ∷ t) z
  plain :
      (c : ℕ) (t : Text) (o : Option ℕ) (z : ℤ)
      → c ≢ b'-'
      → c ≢ b'+'
      → Unsigned (c ∷ t) o
      → Above o z
      → Reads (c ∷ t) z

longer :
    (n c : ℕ) (s : Text) (o : Option ℕ)
    → b'0' ≤ c
    → c ≤ b'9'
    → Magnitude (n * 10 + (c - b'0')) s o
    → Magnitude n (c ∷ s) o
unfolding decimal
longer n c _ _ low high (digits ds all less) = digits (c ∷ ds) (low, high, all) less
longer n c _ _ low high (too_large ds rest all more) = too_large (c ∷ ds) rest (low, high, all) more
longer n c _ _ low high (no_number ds d rest all less other) =
    no_number (c ∷ ds) d rest (low, high, all) less other

parse_uint-Magnitude :
    (n : ℕ) (s : Text) → n < 18446744073709551616 → Magnitude n s (parse_uint n s)
unfolding parse_uint decimal
parse_uint-Magnitude n [] less = digits [] tt less
parse_uint-Magnitude n (c ∷ s) less =
    let next = n * 10 + (c - b'0') in
    elim (Bool-cases (leb b'0' c && leb c b'9')) [
      | inr other ↦ rw other (no_number [] c s tt less other)
      | inl digit ↦
          let low : b'0' ≤ c = ground arith in
          let high : c ≤ b'9' = ground arith in
          elim (Bool-cases (leb 18446744073709551616 next)) [
            | inl more ↦ rw (digit, more) (too_large (c ∷ []) s (low, high, tt) (ground arith))
            | inr few ↦
                rw (digit, few)
                  (longer n c s _ low high (parse_uint-Magnitude next s (ground arith)))
          ]
    ]

digits-Unsigned : (t : Text) → Unsigned t (parse_digits t)
unfolding parse_digits
digits-Unsigned [] = blank
digits-Unsigned (c ∷ t) = run c t (parse_uint-Magnitude 0 (c ∷ t) (omega arith))

positive-Above : (o : Option ℕ) → Above o (positive o)
unfolding positive
positive-Above none = Above.no_value
positive-Above (some n) =
    if_either (Above (some n)) (leb 9223372036854775808 n) (λ e. largest n (ground arith))
      (λ e. Above.in_range n (ground arith))

negative-Below : (o : Option ℕ) → Below o (negative o)
unfolding negative
negative-Below none = Below.no_value
negative-Below (some n) =
    if_either (Below (some n)) (n == 0)
      (λ e.
        let same : n ≡ 0 = ground arith in subst (λ m. Below (some m) (pos 0)) (sym same) nought)
      (λ some_n.
        let before : suc (n - 1) ≡ n = ground arith in
        if_either (Below (some n)) (ltb 9223372036854775808 n)
          (λ e.
            subst (λ m. Below (some m) (negsuc 9223372036854775807)) before
              (smallest (n - 1) (ground arith)))
          (λ e.
            subst (λ m. Below (some m) (negsuc (n - 1))) before
              (Below.in_range (n - 1) (ground arith))))

pub atoi-Reads : (t : Text) → Reads t (atoi t)
unfolding atoi
atoi-Reads [] = nothing
atoi-Reads (c ∷ t) =
    if_either (Reads (c ∷ t)) (c == b'-')
      (λ e.
        let same : c ≡ b'-' = ground arith in
        subst (λ x. Reads (x ∷ t) (negative (parse_digits t))) (sym same)
          (minus t _ _ (digits-Unsigned t) (negative-Below (parse_digits t))))
      (λ not_minus.
        if_either (Reads (c ∷ t)) (c == b'+')
          (λ e.
            let same : c ≡ b'+' = ground arith in
            subst (λ x. Reads (x ∷ t) (positive (parse_digits t))) (sym same)
              (plus t _ _ (digits-Unsigned t) (positive-Above (parse_digits t))))
          (λ not_plus.
            plain c t _ _ (λ e. ground arith) (λ e. ground arith) (digits-Unsigned (c ∷ t))
              (positive-Above (parse_digits (c ∷ t)))))
