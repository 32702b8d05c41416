-- ===== src/ChunkDecoder/RoundTrip.antt =====
-- The decoder reads back the chunks that were written.
use duckdb_fdw.Base.{
  ℕ, zero, suc, ◌+◌, ◌-◌, ◌≤◌, ◌<◌, ◌≡◌, refl, sym, ap, ◌∙◌, true, false, ◌||◌, some, List, [], ◌∷◌,
  ◌++◌, All, min, arith, ◌==◌, ltb, length, length-append, u64_mod,
}
use duckdb_fdw.ChunkDecoder.{split_crlf, read_size, hex_value, is_ows}
use duckdb_fdw.ChunkDecoder.Loops.{
  done, read_extensions, parse_chunk_size, validate_trailers, decode_chunks, body, decoded_of,
  decode, has_bounded_http_string_capacity,
}
use duckdb_fdw.ChunkDecoder.Print.{
  print_hex, encode, joined, print_hex-IsLine, split_crlf-line, take-append, drop-append,
  parse_chunk_size-print,
}

append_assoc : (xs ys zs : List ℕ) → (xs ++ ys) ++ zs ≡ xs ++ (ys ++ zs)
append_assoc [] ys zs = refl
append_assoc (x ∷ xs) ys zs = ap (λ r. x ∷ r) (append_assoc xs ys zs)

append_nil : (xs : List ℕ) → xs ++ [] ≡ xs
append_nil [] = refl
append_nil (x ∷ xs) = ap (λ r. x ∷ r) (append_nil xs)

last_line : split_crlf (encode []) ≡ some (b'0' ∷ [], 13 ∷ 10 ∷ [])
unfolding split_crlf encode
last_line = refl

last_size : parse_chunk_size (b'0' ∷ []) ≡ done 0
unfolding parse_chunk_size read_size hex_value is_ows read_extensions
last_size = refl

no_trailers : validate_trailers (13 ∷ 10 ∷ []) ≡ done []
unfolding validate_trailers
no_trailers = refl

abbrev IsFull : List (List ℕ) → Type 0
IsFull = All (λ c. (length c == 0) ≡ false)

-- One pass of the decoder's loop reads a chunk that fits, whatever extensions its line has.
decode_chunks-chunk :
    (fuel max_body_bytes : ℕ) (decoded t line c text : List ℕ)
    → split_crlf t ≡ some (line, c ++ 13 ∷ 10 ∷ text)
    → parse_chunk_size line ≡ done (length c)
    → (length c == 0) ≡ false
    → length decoded + length c ≤ max_body_bytes
    → decode_chunks (suc fuel) max_body_bytes decoded t
      ≡ decode_chunks fuel max_body_bytes (decoded ++ c) text
unfolding decode_chunks
decode_chunks-chunk fuel max_body_bytes decoded t line c text split size some_bytes fits =
    let l = length-append c (13 ∷ 10 ∷ text) in
    let over : (ltb (max_body_bytes - length decoded) (length c)
          || ltb (length (c ++ 13 ∷ 10 ∷ text)) (length c))
        ≡ false =
      ground (arith, l, fits) in
    rw (split, decode_chunks)
      (rw (size, some_bytes, over)
        (rw (drop-append c (13 ∷ 10 ∷ text), take-append c (13 ∷ 10 ∷ text)) refl))

encode-line :
    (c : List ℕ) (cs : List (List ℕ))
    → split_crlf (encode (c ∷ cs))
      ≡ some (print_hex (length c + 1) (length c), c ++ 13 ∷ 10 ∷ encode cs)
unfolding encode
encode-line c cs =
    split_crlf-line (print_hex (length c + 1) (length c)) (c ++ 13 ∷ 10 ∷ encode cs)
      (print_hex-IsLine (length c + 1) (length c))

decode_chunks-encode :
    (fuel max_body_bytes : ℕ) (decoded : List ℕ) (cs : List (List ℕ))
    → length cs < fuel
    → IsFull cs
    → length decoded + length (joined cs) ≤ max_body_bytes
    → max_body_bytes < u64_mod
    → decode_chunks fuel max_body_bytes decoded (encode cs) ≡ done (decoded ++ joined cs)
unfolding decode_chunks
decode_chunks-encode zero max_body_bytes decoded cs enough full fits small = ground arith
decode_chunks-encode (suc fuel) max_body_bytes decoded [] enough full fits small =
    rw (last_line, decode_chunks)
      (rw (last_size) (rw no_trailers (ap done (sym (append_nil decoded)))))
decode_chunks-encode (suc fuel) max_body_bytes decoded (c ∷ cs) enough full fits small =
    let l = length-append c (joined cs) in
    decode_chunks-chunk fuel max_body_bytes decoded (encode (c ∷ cs))
      (print_hex (length c + 1) (length c)) c (encode cs) (encode-line c cs)
      (parse_chunk_size-print (length c) (omega (arith, fits, small, l))) full.0
      (omega (arith, fits, l))
    ∙ decode_chunks-encode fuel max_body_bytes (decoded ++ c) cs (omega (arith, enough)) full.1
        (omega (arith, fits, l, length-append decoded c)) small
    ∙ ap done (append_assoc decoded c (joined cs))

length-encode : (cs : List (List ℕ)) → length cs ≤ length (encode cs)
unfolding encode
length-encode [] = ground arith
length-encode (c ∷ cs) = omega (
  arith,
  length-encode cs,
  length-append (print_hex (length c + 1) (length c)) (13 ∷ 10 ∷ (c ++ 13 ∷ 10 ∷ encode cs)),
  length-append c (13 ∷ 10 ∷ encode cs),
)

-- Chunks that are not empty and that fit together in the caller's limit, a uint64_t, are read back
-- as their bytes in order, where std::string keeps to the capacity allowed.
pub decode-encode :
    (capacity : ℕ → ℕ) (cs : List (List ℕ)) (max_body_bytes : ℕ)
    → IsFull cs
    → length (joined cs) ≤ max_body_bytes
    → max_body_bytes < u64_mod
    → has_bounded_http_string_capacity
        (capacity (min (length (encode cs)) max_body_bytes))
        max_body_bytes
      ≡ true
    → decode capacity (encode cs) max_body_bytes ≡ body (joined cs)
unfolding decode
decode-encode capacity cs max_body_bytes full fits small roomy =
    rw (roomy, decode)
      (ap decoded_of (
        decode_chunks-encode (length (encode cs) + 1) max_body_bytes [] cs
          (omega (arith, length-encode cs)) full (omega (arith, fits)) small))
