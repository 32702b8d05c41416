-- ===== src/ChunkDecoder/Bounds.antt =====
-- The decoded body is within the caller's limit and no longer than the text.
use duckdb_fdw.Base.{
  ℕ, zero, suc, ◌+◌, ◌≤◌, ◌≡◌, inl, inr, List, [], ◌∷◌, ◌++◌, arith, length, length-append,
  Option-cases,
}
use duckdb_fdw.ChunkDecoder.{split_crlf, tail}
use duckdb_fdw.ChunkDecoder.Loops.{
  Run, done, malformed, out_of_fuel, parse_chunk_size, validate_trailers, take, drop, ended,
  decode_chunks, body, decoded_of, decode,
}
use duckdb_fdw.ChunkDecoder.Fuel.{
  length-split_crlf, length-drop, length-take, length-tail, Run-cases, parse_chunk_size-total,
}

ended-length :
    (decoded bytes : List ℕ) (o : Run (List ℕ))
    → ended decoded o ≡ done bytes
    → length bytes ≡ length decoded
ended-length decoded bytes (done []) e = ground (arith, e)
ended-length decoded bytes (done (v ∷ rest)) e = ground (arith, e)
ended-length decoded bytes malformed e = ground (arith, e)
ended-length decoded bytes out_of_fuel e = ground (arith, e)

decode_chunks-bounds :
    (fuel max_body_bytes : ℕ) (decoded t bytes : List ℕ)
    → decode_chunks fuel max_body_bytes decoded t ≡ done bytes
    → length decoded ≤ max_body_bytes
    → (length bytes ≤ max_body_bytes) × (length bytes ≤ length decoded + length t)
unfolding decode_chunks
decode_chunks-bounds zero max_body_bytes decoded t bytes e h = ground (arith, e)
decode_chunks-bounds (suc fuel) max_body_bytes decoded t bytes e h =
    elim (Option-cases (split_crlf t)) [
      | inl bad ↦ ground (arith, e, bad)
      | inr ((line, rest), ok) ↦
          elim (Run-cases (parse_chunk_size line) (parse_chunk_size-total line)) [
            | inl bad ↦ ground (arith, e, ok, bad)
            | inr (size, good) ↦
                let s = length-split_crlf t line rest ok in
                let after = drop size rest in
                ground (
                  arith,
                  e,
                  ok,
                  good,
                  s,
                  length-tail after,
                  length-tail (tail after),
                  length-drop size rest,
                  length-take size rest,
                  length-append decoded (take size rest),
                  ended-length decoded bytes (validate_trailers rest),
                  decode_chunks-bounds fuel max_body_bytes (decoded ++ take size rest)
                      (tail (tail after)) bytes,
                )
          ]
    ]

decoded_of-body : (o : Run (List ℕ)) (bytes : List ℕ) → decoded_of o ≡ body bytes → o ≡ done bytes
decoded_of-body (done a) bytes e = ground (arith, e)
decoded_of-body malformed bytes e = ground (arith, e)
decoded_of-body out_of_fuel bytes e = ground (arith, e)

-- The body that the decoder gives is within the caller's limit and no longer than the encoded text.
pub decode-bounds :
    (capacity : ℕ → ℕ) (encoded bytes : List ℕ) (max_body_bytes : ℕ)
    → decode capacity encoded max_body_bytes ≡ body bytes
    → (length bytes ≤ max_body_bytes) × (length bytes ≤ length encoded)
unfolding decode
decode-bounds capacity encoded bytes max_body_bytes e =
    let run = decode_chunks (length encoded + 1) max_body_bytes [] encoded in
    let found : run ≡ done bytes = ground (arith, e, decoded_of-body run bytes) in
    let bounds =
      decode_chunks-bounds (length encoded + 1) max_body_bytes [] encoded bytes found
        (omega arith) in
    (bounds.0, omega (arith, bounds.1))
