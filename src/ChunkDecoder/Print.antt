-- ===== src/ChunkDecoder/Print.antt =====
-- A chunked text that is written from a list of chunks, and what the decoder reads in it.
use duckdb_fdw.Base.{
  ℕ, zero, suc, ◌+◌, ◌-◌, ◌*◌, ◌/◌, ◌%◌, ◌<◌, ◌≡◌, refl, ap, ◌∙◌, inl, inr, Bool, true, false, ◌||◌,
  some, List, [], ◌∷◌, ◌++◌, All, All-append, arith, ◌==◌, ltb, if◌then◌else◌, length, Bool-cases,
  Option-cases, u64_mod,
}
use duckdb_fdw.ChunkDecoder.{hex_value, is_ows, split_crlf, read_size}
use duckdb_fdw.ChunkDecoder.Loops.{done, read_extensions, parse_chunk_size, take, drop}

abbrev pub hex_digit : ℕ → ℕ
hex_digit d = if ltb d 10 then d + b'0' else d - 10 + b'a'

-- The hexadecimal digits of a number; one more than the number is fuel enough.
unfoldable pub print_hex : ℕ → ℕ → List ℕ
print_hex zero n = []
print_hex (suc fuel) n =
    let more = print_hex fuel (n / 16) in
    if ltb n 16 then hex_digit n ∷ [] else more ++ hex_digit (n % 16) ∷ []

-- The chunks, each with its size before it, and the last chunk, with no trailers.
unfoldable pub encode : List (List ℕ) → List ℕ
encode [] = b'0' ∷ 13 ∷ 10 ∷ 13 ∷ 10 ∷ []
encode (c ∷ cs) = print_hex (length c + 1) (length c) ++ 13 ∷ 10 ∷ (c ++ 13 ∷ 10 ∷ encode cs)

abbrev pub joined : List (List ℕ) → List ℕ
joined [] = []
joined (c ∷ cs) = c ++ joined cs

hex_value-hex_digit : (d : ℕ) → d < 16 → hex_value (hex_digit d) ≡ some d
unfolding hex_value
hex_value-hex_digit d h = ground (arith, h)

hex_digit-stops : (d : ℕ) → d < 16 → (is_ows (hex_digit d) || hex_digit d == b';') ≡ false
unfolding is_ows
hex_digit-stops d h = ground (arith, h)

empty-read : (n : ℕ) → read_size n false [] ≡ some (n, false, [])
unfolding read_size
empty-read n = refl

read_size-snoc :
    (xs : List ℕ) (result m digit : ℕ) (saw_digit saw : Bool)
    → read_size result saw_digit xs ≡ some (m, saw, [])
    → digit < 16
    → m * 16 + digit < u64_mod
    → read_size result saw_digit (xs ++ hex_digit digit ∷ []) ≡ some (m * 16 + digit, true, [])
unfolding read_size
read_size-snoc [] result m digit saw_digit saw e h small =
    let same : result ≡ m = ground (arith, e) in
    let wrap : (result * 16 + digit) % u64_mod ≡ m * 16 + digit = omega (arith, same, small) in
    let below : ltb ((u64_mod - 1 - digit) / 16) result ≡ false = ground (arith, same, small, h) in
    rw (hex_digit-stops digit h, hex_value-hex_digit digit h)
      (rw below (ap (λ n. some (n, true, [])) wrap))
read_size-snoc (v ∷ rest) result m digit saw_digit saw e h small =
    elim (Bool-cases (is_ows v || v == b';')) [
      | inl stops ↦ ground (arith, e, stops)
      | inr goes ↦ elim (Option-cases (hex_value v)) [
        | inl bad ↦ ground (arith, e, goes, bad)
        | inr (k, ok) ↦ elim (Bool-cases (ltb ((u64_mod - 1 - k) / 16) result)) [
          | inl over ↦ ground (arith, e, goes, ok, over)
          | inr fits ↦
              let later : read_size ((result * 16 + k) % u64_mod) true rest ≡ some (m, saw, []) =
                ground (arith, e, goes, ok, fits) in
              rw (goes, ok)
                (rw fits (
                  read_size-snoc rest ((result * 16 + k) % u64_mod) m digit true saw later h small))
        ]
      ]
    ]

print_hex-read :
    (fuel n : ℕ)
    → n < fuel
    → n < u64_mod
    → read_size 0 false (print_hex fuel n) ≡ some (n, true, [])
unfolding print_hex
print_hex-read zero n h small = ground arith
print_hex-read (suc fuel) n h small = elim (Bool-cases (ltb n 16)) [
  | inl one ↦
      rw (one, print_hex)
        (read_size-snoc [] 0 0 n false false (empty-read 0) (ground (arith, one))
            (omega (arith, small))
          ∙ ap (λ k. some (k, true, [])) (omega arith))
  | inr more ↦
      let before = print_hex-read fuel (n / 16) (ground (arith, more, h)) (omega (arith, small)) in
      rw (more, print_hex)
        (read_size-snoc (print_hex fuel (n / 16)) 0 (n / 16) (n % 16) false true before
            (omega arith) (omega (arith, small))
          ∙ ap (λ k. some (k, true, [])) (omega arith))
]

-- A line has no carriage return.
abbrev pub IsLine : List ℕ → Type 0
IsLine = All (λ v. (v == 13) ≡ false)

pub print_hex-IsLine : (fuel n : ℕ) → IsLine (print_hex fuel n)
unfolding print_hex
print_hex-IsLine zero n = tt
print_hex-IsLine (suc fuel) n = elim (Bool-cases (ltb n 16)) [
  | inl one ↦ rw (one, print_hex) (ground (arith, one), tt)
  | inr more ↦
      rw (more, print_hex)
        (All-append (λ v. (v == 13) ≡ false) (print_hex fuel (n / 16)) (hex_digit (n % 16) ∷ [])
          (print_hex-IsLine fuel (n / 16)) (ground arith, tt))
]

pub split_crlf-line :
    (line rest : List ℕ) → IsLine line → split_crlf (line ++ 13 ∷ 10 ∷ rest) ≡ some (line, rest)
unfolding split_crlf
split_crlf-line [] rest l = refl
split_crlf-line (v ∷ []) rest l = ground (arith, l.0)
split_crlf-line (v ∷ w ∷ line) rest l = ground (arith, l.0, split_crlf-line (w ∷ line) rest l.1)

pub take-append : (xs ys : List ℕ) → take (length xs) (xs ++ ys) ≡ xs
unfolding take
take-append [] [] = refl
take-append [] (y ∷ ys) = refl
take-append (x ∷ xs) ys = ap (λ r. x ∷ r) (take-append xs ys)

pub drop-append : (xs ys : List ℕ) → drop (length xs) (xs ++ ys) ≡ ys
unfolding drop
drop-append [] [] = refl
drop-append [] (y ∷ ys) = refl
drop-append (x ∷ xs) ys = drop-append xs ys

pub parse_chunk_size-print : (n : ℕ) → n < u64_mod → parse_chunk_size (print_hex (n + 1) n) ≡ done n
unfolding parse_chunk_size read_extensions
parse_chunk_size-print n small =
    rw (print_hex-read (n + 1) n (omega arith) small, parse_chunk_size) (ground arith)
