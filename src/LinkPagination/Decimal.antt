-- ===== src/LinkPagination/Decimal.antt =====
-- The decimal digits of a number, read back.
use duckdb_fdw.Base.{
  ℕ, zero, suc, ◌+◌, ◌-◌, ◌*◌, ◌/◌, ◌%◌, ◌<◌, ◌≡◌, refl, ap, ◌∙◌, inl, inr, Bool, true, false, ◌||◌,
  not, some, List, [], ◌∷◌, ◌++◌, All, All-append, arith, ◌==◌, ltb, u64_mod, Bool-cases,
}
use duckdb_fdw.LinkPagination.{digits, to_string, read_decimal, parse_positive_decimal}

read_decimal-snoc :
    (xs : List ℕ) (result m digit : ℕ)
    → read_decimal result xs ≡ some m
    → digit < 10
    → m * 10 + digit < u64_mod
    → read_decimal result (xs ++ (digit + b'0') ∷ []) ≡ some (m * 10 + digit)
unfolding read_decimal
read_decimal-snoc [] result m digit e h small =
    let same : result ≡ m = ground (arith, e) in ground (arith, same, h, small)
read_decimal-snoc (c ∷ cs) result m digit e h small = ground (
  arith,
  e,
  λ (later : read_decimal ((result * 10 + (c - b'0')) % u64_mod) cs ≡ some m).
      read_decimal-snoc cs ((result * 10 + (c - b'0')) % u64_mod) m digit later h small,
)

nothing_read : (n : ℕ) → read_decimal n [] ≡ some n
unfolding read_decimal
nothing_read n = refl

digits-read : (fuel n : ℕ) → n < fuel → n < u64_mod → read_decimal 0 (digits fuel n) ≡ some n
unfolding digits
digits-read zero n h small = ground arith
digits-read (suc fuel) n h small = elim (Bool-cases (ltb n 10)) [
  | inl one ↦
      rw (one, digits)
        (read_decimal-snoc [] 0 0 n (nothing_read 0) (ground (arith, one)) (omega (arith, small))
          ∙ ap some (omega arith))
  | inr more ↦
      let before = digits-read fuel (n / 10) (ground (arith, more, h)) (omega (arith, small)) in
      rw (more, digits)
        (read_decimal-snoc (digits fuel (n / 10)) 0 (n / 10) (n % 10) before (omega arith)
            (omega (arith, small))
          ∙ ap some (omega arith))
]

abbrev starts_positive : List ℕ → Bool
starts_positive [] = false
starts_positive (c ∷ cs) = not (ltb c b'1' || ltb b'9' c)

starts_positive-append :
    (xs ys : List ℕ) → starts_positive xs ≡ true → starts_positive (xs ++ ys) ≡ true
starts_positive-append [] ys e = ground (arith, e)
starts_positive-append (x ∷ xs) ys e = e

digits-starts_positive : (fuel n : ℕ) → n < fuel → 0 < n → starts_positive (digits fuel n) ≡ true
unfolding digits
digits-starts_positive zero n h some_value = ground arith
digits-starts_positive (suc fuel) n h some_value = elim (Bool-cases (ltb n 10)) [
  | inl one ↦ rw (one, digits) (ground (arith, one, some_value))
  | inr more ↦
      rw (more, digits)
        (starts_positive-append (digits fuel (n / 10)) ((n % 10 + b'0') ∷ [])
          (digits-starts_positive fuel (n / 10) (ground (arith, more, h)) (ground (arith, more))))
]

parse_positive_decimal-read :
    (xs : List ℕ) (n : ℕ)
    → starts_positive xs ≡ true
    → read_decimal 0 xs ≡ some n
    → parse_positive_decimal xs ≡ some n
unfolding parse_positive_decimal
parse_positive_decimal-read [] n s e = ground (arith, s)
parse_positive_decimal-read (c ∷ cs) n s e = ground (arith, s, e)

pub parse_positive_decimal-to_string :
    (n : ℕ) → 0 < n → n < u64_mod → parse_positive_decimal (to_string n) ≡ some n
parse_positive_decimal-to_string n some_value small =
    parse_positive_decimal-read (to_string n) n
      (digits-starts_positive (n + 1) n (omega arith) some_value)
      (digits-read (n + 1) n (omega arith) small)

-- A byte that has no meaning in a query.
abbrev pub IsPlain : List ℕ → Type 0
IsPlain = All (λ c. ((c == b'&') ≡ false) × ((c == b'=') ≡ false) × ((c == b'#') ≡ false))

pub digits-IsPlain : (fuel n : ℕ) → IsPlain (digits fuel n)
unfolding digits
digits-IsPlain zero n = tt
digits-IsPlain (suc fuel) n = elim (Bool-cases (ltb n 10)) [
  | inl one ↦ rw (one, digits) ((ground (arith, one), ground (arith, one), ground (arith, one)), tt)
  | inr more ↦
      rw (more, digits)
        (All-append _ (digits fuel (n / 10)) ((n % 10 + b'0') ∷ []) (digits-IsPlain fuel (n / 10))
          ((ground arith, ground arith, ground arith), tt))
]
