-- ===== src/Proxy/Headers/Numbers.antt =====
-- The size header: a number that is printed is read back (strToUInt64 in cmd/proxy/context.go).
use debuginfod_pwndbg_re.Prelude.{
  ℕ, zero, suc, ◌+◌, ◌-◌, ◌*◌, ◌/◌, ◌%◌, ◌^◌, ◌<◌, [], ◌∷◌, ◌++◌, none, some, Bytes, ltb, ◌≡◌, refl,
  ap, ◌∙◌, arith, Bool-cases, inl, inr,
}
use debuginfod_pwndbg_re.Proxy.Headers.{parse_uint, str_to_uint64, digits, format_int}

parse_uint-append :
    (acc : ℕ) (s t : Bytes)
    → parse_uint acc (s ++ t) ≡ elim (parse_uint acc s) [ none ↦ none | some v ↦ parse_uint v t ]
unfolding parse_uint
parse_uint-append acc [] t = refl
parse_uint-append acc (c ∷ s) t = ground (arith, parse_uint-append (acc * 10 + (c - b'0')) s t)

-- One digit.
parse_uint_digit :
    (acc d : ℕ)
    → d < 10
    → acc * 10 + d < 2 ^ 64
    → parse_uint acc ((b'0' + d) ∷ []) ≡ some (acc * 10 + d)
unfolding parse_uint
parse_uint_digit acc d h k = ground arith

parse_uint-digits :
    (fuel n : ℕ) → n < 10 ^ fuel → n < 2 ^ 64 → parse_uint 0 (digits fuel n) ≡ some n
unfolding digits
parse_uint-digits zero n h k = unfold parse_uint in ap some (omega arith)
parse_uint-digits (suc fuel) n h k = elim (Bool-cases (ltb n 10)) [
  | inl small ↦ rw small (parse_uint_digit 0 n (ground arith) (omega arith) ∙ ap some (omega arith))
  | inr large ↦ rw large (
      rw parse_uint-append (
        rw (parse_uint-digits fuel (n / 10) (omega arith) (omega arith))
          (parse_uint_digit (n / 10) (n % 10) (omega arith) (omega arith) ∙ ap some (omega arith))))
]

str_to_uint64_lem : (s : Bytes) → str_to_uint64 s ≡ elim (parse_uint 0 s) [ none ↦ 0 | some v ↦ v ]
unfolding str_to_uint64
str_to_uint64_lem [] = unfold parse_uint in refl
str_to_uint64_lem (c ∷ s) = refl

-- A size that one service prints as a decimal is the size that another reads, for every size that
-- an int64 can hold.
str_to_uint64-format_int : (n : ℕ) → n < 2 ^ 63 → str_to_uint64 (format_int n) ≡ n
unfolding format_int
str_to_uint64-format_int n h =
    rw str_to_uint64_lem (rw (parse_uint-digits 20 n (omega arith) (omega arith)) refl)
