-- ===== src/ChunkDecoder/Fuel.antt =====
-- The loops of the decoder end: each pass leaves less of the text.
use duckdb_fdw.Base.{
  ℕ, zero, suc, ◌+◌, ◌-◌, ◌≤◌, ◌<◌, ◌≡◌, ◌≢◌, ◌⊎◌, refl, inl, inr, Bool, true, false, some, List,
  [], ◌∷◌, ◌++◌, min, arith, length, Bool-cases, Option-cases,
}
use duckdb_fdw.ChunkDecoder.{
  skip_ows, skip_token, parse_token, quoted_rest, parse_quoted_string, split_crlf, read_size,
  is_empty, starts_with, tail, parse_value, parse_extension,
}
use duckdb_fdw.ChunkDecoder.Loops.{
  Run, done, malformed, out_of_fuel, read_extensions, parse_chunk_size, is_trailer, trailer_lines,
  starts_crlf, validate_trailers, take, drop, ended, decode_chunks, no_fuel, decoded_of, decode,
  has_bounded_http_string_capacity,
}

length-skip_ows : (t : List ℕ) → length (skip_ows t) ≤ length t
unfolding skip_ows
length-skip_ows [] = ground arith
length-skip_ows (v ∷ rest) = ground (arith, length-skip_ows rest)

length-skip_token : (t : List ℕ) → length (skip_token t) ≤ length t
unfolding skip_token
length-skip_token [] = ground arith
length-skip_token (v ∷ rest) = ground (arith, length-skip_token rest)

pub length-tail : (t : List ℕ) → length (tail t) ≤ length t
length-tail [] = ground arith
length-tail (v ∷ rest) = ground arith

length-tail_of : (c : ℕ) (t : List ℕ) → starts_with c t ≡ true → length (tail t) < length t
length-tail_of c [] s = ground arith
length-tail_of c (v ∷ rest) s = ground arith

length-parse_token : (t r : List ℕ) → parse_token t ≡ some r → length r < length t
unfolding parse_token
length-parse_token [] r e = ground (arith, e)
length-parse_token (v ∷ rest) r e = ground (arith, e, length-skip_token rest)

length-quoted_rest :
    (escaping : Bool) (t r : List ℕ) → quoted_rest escaping t ≡ some r → length r ≤ length t
unfolding quoted_rest
length-quoted_rest escaping [] r e = ground (arith, e)
length-quoted_rest true (v ∷ rest) r e = ground (arith, e, length-quoted_rest false rest r)
length-quoted_rest false (v ∷ rest) r e =
    ground (arith, e, length-quoted_rest false rest r, length-quoted_rest true rest r)

length-parse_quoted_string : (t r : List ℕ) → parse_quoted_string t ≡ some r → length r ≤ length t
unfolding parse_quoted_string
length-parse_quoted_string [] r e = ground (arith, e)
length-parse_quoted_string (v ∷ rest) r e = ground (arith, e, length-quoted_rest false rest r)

length-parse_value : (t r : List ℕ) → parse_value t ≡ some r → length r ≤ length t
unfolding parse_value
length-parse_value t r e = ground (
  arith,
  e,
  length-tail t,
  length-skip_ows (tail t),
  length-parse_quoted_string (skip_ows (tail t)) r,
  length-parse_token (skip_ows (tail t)) r,
)

length-parse_extension : (t r : List ℕ) → parse_extension t ≡ some r → length r < length t
unfolding parse_extension
length-parse_extension t r e = elim (Bool-cases (starts_with b';' (skip_ows t))) [
  | inr other ↦ ground (arith, e, other)
  | inl more ↦ elim (Option-cases (parse_token (skip_ows (tail (skip_ows t))))) [
    | inl absent ↦ ground (arith, e, more, absent)
    | inr (named, found) ↦ ground (
      arith,
      e,
      more,
      found,
      length-skip_ows t,
      length-tail_of b';' (skip_ows t) more,
      length-skip_ows (tail (skip_ows t)),
      length-parse_token (skip_ows (tail (skip_ows t))) named found,
      length-skip_ows named,
      length-parse_value (skip_ows named) r,
    )
  ]
]

pub length-split_crlf :
    (t line rest : List ℕ)
    → split_crlf t ≡ some (line, rest)
    → length line + length rest + 2 ≡ length t
unfolding split_crlf
length-split_crlf [] line rest e = ground (arith, e)
length-split_crlf (v ∷ []) line rest e = ground (arith, e)
length-split_crlf (v ∷ w ∷ after) line rest e = elim (Option-cases (split_crlf (w ∷ after))) [
  | inl absent ↦ ground (arith, e, absent)
  | inr ((inner, text), found) ↦
      ground (arith, e, found, length-split_crlf (w ∷ after) inner text found)
]

abbrev pub is_out {ℓ} : {A : Type ℓ} → Run A → Bool
is_out out_of_fuel = true
is_out _ = false

read_extensions-total :
    (fuel size : ℕ) (t : List ℕ) → length t < fuel → is_out (read_extensions fuel size t) ≡ false
unfolding read_extensions
read_extensions-total zero size t h = ground arith
read_extensions-total (suc fuel) size t h = elim (Bool-cases (is_empty t)) [
  | inl e ↦ rw (e, read_extensions) refl
  | inr ne ↦ elim (Option-cases (parse_extension t)) [
    | inl bad ↦ rw (ne, bad, read_extensions) refl
    | inr (rest, ok) ↦
        rw (ne, ok, read_extensions)
          (read_extensions-total fuel size rest (omega (arith, length-parse_extension t rest ok)))
  ]
]

pub parse_chunk_size-total : (line : List ℕ) → is_out (parse_chunk_size line) ≡ false
unfolding parse_chunk_size
parse_chunk_size-total line = elim (Option-cases (read_size 0 false line)) [
  | inl bad ↦ rw (bad, parse_chunk_size) refl
  | inr ((size, saw_digit, rest), ok) ↦ elim (Bool-cases saw_digit) [
    | inl saw ↦
        rw (ok, saw, parse_chunk_size)
          (read_extensions-total (length rest + 1) size rest (omega arith))
    | inr blank ↦ rw (ok, blank, parse_chunk_size) refl
  ]
]

trailer_lines-total :
    (fuel : ℕ) (t : List ℕ) → length t < fuel → is_out (trailer_lines fuel t) ≡ false
unfolding trailer_lines
trailer_lines-total zero t h = ground arith
trailer_lines-total (suc fuel) t h = elim (Option-cases (split_crlf t)) [
  | inl bad ↦ rw (bad, trailer_lines) refl
  | inr ((line, rest), ok) ↦ elim (Bool-cases (is_empty line)) [
    | inl e ↦ rw (ok, e, trailer_lines) refl
    | inr ne ↦ elim (Bool-cases (is_trailer line)) [
      | inr bad ↦ rw (ok, ne, bad, trailer_lines) refl
      | inl field ↦
          rw (ok, ne, field, trailer_lines)
            (trailer_lines-total fuel rest (omega (arith, length-split_crlf t line rest ok)))
    ]
  ]
]

validate_trailers-total : (t : List ℕ) → is_out (validate_trailers t) ≡ false
unfolding validate_trailers
validate_trailers-total t = elim (Bool-cases (starts_crlf t)) [
  | inl e ↦ rw (e, validate_trailers) refl
  | inr ne ↦ rw (ne, validate_trailers) (trailer_lines-total (length t + 1) t (omega arith))
]

pub length-drop : (n : ℕ) (t : List ℕ) → length (drop n t) ≡ length t - n
unfolding drop
length-drop n [] = omega arith
length-drop zero (v ∷ rest) = omega arith
length-drop (suc n) (v ∷ rest) = omega (arith, length-drop n rest)

pub length-take : (n : ℕ) (t : List ℕ) → n ≤ length t → length (take n t) ≡ n
unfolding take
length-take n [] h = omega (arith, h)
length-take zero (v ∷ rest) h = omega arith
length-take (suc n) (v ∷ rest) h = omega (arith, h, length-take n rest)

ended-total :
    (decoded : List ℕ) (o : Run (List ℕ)) → is_out o ≡ false → is_out (ended decoded o) ≡ false
ended-total decoded (done []) h = refl
ended-total decoded (done (v ∷ rest)) h = refl
ended-total decoded malformed h = refl
ended-total decoded out_of_fuel h = h

pub Run-cases {ℓ} :
    {A : Type ℓ} (o : Run A) → is_out o ≡ false → (o ≡ malformed) ⊎ ((a : A) × (o ≡ done a))
Run-cases (done a) h = inr (a, refl)
Run-cases malformed h = inl refl
Run-cases out_of_fuel h = ground arith

decode_chunks-total :
    (fuel max_body_bytes : ℕ) (decoded t : List ℕ)
    → length t < fuel
    → is_out (decode_chunks fuel max_body_bytes decoded t) ≡ false
unfolding decode_chunks
decode_chunks-total zero max_body_bytes decoded t h = ground arith
decode_chunks-total (suc fuel) max_body_bytes decoded t h = elim (Option-cases (split_crlf t)) [
  | inl bad ↦ rw (bad, decode_chunks) refl
  | inr ((line, rest), ok) ↦
      elim (Run-cases (parse_chunk_size line) (parse_chunk_size-total line)) [
        | inl bad ↦ rw (ok, bad, decode_chunks) refl
        | inr (size, good) ↦
            let s = length-split_crlf t line rest ok in
            let l = length-tail (drop size rest) in
            let later =
              decode_chunks-total fuel max_body_bytes (decoded ++ take size rest)
                (tail (tail (drop size rest)))
                (omega (arith, s, l, length-tail (tail (drop size rest)), length-drop size rest)) in
            rw (ok, good, decode_chunks)
              (ground (
                arith,
                later,
                ended-total decoded (validate_trailers rest) (validate_trailers-total rest),
              ))
      ]
]

decoded_of-total : (o : Run (List ℕ)) → is_out o ≡ false → decoded_of o ≢ no_fuel
decoded_of-total (done a) h = ground arith
decoded_of-total malformed h = ground arith
decoded_of-total out_of_fuel h = ground arith

-- The decoder ends on every text: the fuel that is given, one more than the text's length, is enough.
pub decode-total :
    (capacity : ℕ → ℕ) (encoded : List ℕ) (max_body_bytes : ℕ)
    → decode capacity encoded max_body_bytes ≢ no_fuel
unfolding decode
decode-total capacity encoded max_body_bytes =
    elim (Bool-cases (
      has_bounded_http_string_capacity (capacity (min (length encoded) max_body_bytes))
        max_body_bytes)) [
          | inl fits ↦
              rw (fits, decode)
                (decoded_of-total _ (
                  decode_chunks-total (length encoded + 1) max_body_bytes [] encoded (omega arith)))
          | inr large ↦ rw (large, decode) (ground arith)
        ]
