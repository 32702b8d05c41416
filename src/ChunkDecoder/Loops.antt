-- ===== src/ChunkDecoder/Loops.antt =====
-- The loops of the chunk decoder and the decoder, src/runtime/transport/http_chunk_decoder.cpp.
use duckdb_fdw.Base.{
  ℕ, zero, suc, ◌+◌, ◌-◌, Bool, true, false, ◌&&◌, ◌||◌, not, none, some, List, [], ◌∷◌, ◌++◌, min,
  ◌==◌, ltb, leb, if◌then◌else◌, length, u64_mod,
}
use duckdb_fdw.ChunkDecoder.{
  parse_token, split_crlf, read_size, is_empty, starts_with, tail, parse_extension,
}

-- What a loop on fuel gives.
pub data Run {ℓ} (A : Type ℓ) : Type ℓ where
  done : A → Run A
  malformed : Run A
  out_of_fuel : Run A

-- The second loop of `ParseChunkSize`, after the size.
unfoldable pub read_extensions : ℕ → ℕ → List ℕ → Run ℕ
read_extensions zero size text = out_of_fuel
read_extensions (suc fuel) size text =
    if is_empty text then done size else elim (parse_extension text) [
      | none ↦ malformed
      | some rest ↦ read_extensions fuel size rest
    ]

-- `ParseChunkSize` of a line.
unfoldable pub parse_chunk_size : List ℕ → Run ℕ
parse_chunk_size line = elim (read_size 0 false line) [
  | none ↦ malformed
  | some (size, saw_digit, rest) ↦
      if saw_digit then read_extensions (length rest + 1) size rest else malformed
]

unfoldable pub is_field_text : List ℕ → Bool
is_field_text [] = true
is_field_text (v ∷ rest) = not ((ltb v 32 && not (v == 9)) || v == 127) && is_field_text rest

-- A line of the trailers: a name, a colon and the field's text.
unfoldable pub is_trailer : List ℕ → Bool
is_trailer line = elim (parse_token line) [
  | none ↦ false
  | some rest ↦ starts_with b':' rest && is_field_text (tail rest)
]

unfoldable pub trailer_lines : ℕ → List ℕ → Run (List ℕ)
trailer_lines zero text = out_of_fuel
trailer_lines (suc fuel) text = elim (split_crlf text) [
  | none ↦ malformed
  | some (line, rest) ↦
      let later = trailer_lines fuel rest in
      if is_empty line then done rest else if is_trailer line then later else malformed
]

abbrev pub starts_crlf : List ℕ → Bool
starts_crlf text = starts_with 13 text && starts_with 10 (tail text)

-- `ValidateTrailers`
unfoldable pub validate_trailers : List ℕ → Run (List ℕ)
validate_trailers text =
    if starts_crlf text then done (tail (tail text)) else trailer_lines (length text + 1) text

unfoldable pub take : ℕ → List ℕ → List ℕ
take n [] = []
take zero (v ∷ rest) = []
take (suc n) (v ∷ rest) = v ∷ take n rest

unfoldable pub drop : ℕ → List ℕ → List ℕ
drop n [] = []
drop zero (v ∷ rest) = v ∷ rest
drop (suc n) (v ∷ rest) = drop n rest

abbrev pub ended : List ℕ → Run (List ℕ) → Run (List ℕ)
ended decoded (done rest) = if is_empty rest then done decoded else malformed
ended decoded malformed = malformed
ended decoded out_of_fuel = out_of_fuel

-- The loop of `DecodeHttpChunkedBody`, from what is decoded so far.
unfoldable pub decode_chunks : ℕ → ℕ → List ℕ → List ℕ → Run (List ℕ)
decode_chunks zero max_body_bytes decoded text = out_of_fuel
decode_chunks (suc fuel) max_body_bytes decoded text = elim (split_crlf text) [
  | none ↦ malformed
  | some (line, rest) ↦ elim (parse_chunk_size line) [
    | malformed ↦ malformed
    | out_of_fuel ↦ out_of_fuel
    | done size ↦
        let later =
          decode_chunks fuel max_body_bytes (decoded ++ take size rest)
            (tail (tail (drop size rest))) in
        if size == 0
        then ended decoded (validate_trailers rest)
        else if ltb (max_body_bytes - length decoded) size || ltb (length rest) size
        then malformed
        else if starts_crlf (drop size rest)
        then later
        else malformed
  ]
]

-- How the decoder ends: with the body, with the error of a capacity that std::string chose too large,
-- or with that of a malformed text.
pub data Decoded : Type 0 where
  body : List ℕ → Decoded
  over_capacity : Decoded
  bad_framing : Decoded
  no_fuel : Decoded

-- `HttpStringAllocationLimit`
unfoldable pub http_string_allocation_limit : ℕ → ℕ
http_string_allocation_limit content_bytes =
    if ltb (u64_mod - 1 - 64) content_bytes then u64_mod - 1 else content_bytes + 64

-- `HasBoundedHttpStringCapacity` of a string with this capacity.
unfoldable pub has_bounded_http_string_capacity : ℕ → ℕ → Bool
has_bounded_http_string_capacity capacity content_limit =
    ltb capacity (u64_mod - 1) && leb (capacity + 1) (http_string_allocation_limit content_limit)

abbrev pub decoded_of : Run (List ℕ) → Decoded
decoded_of (done bytes) = body bytes
decoded_of malformed = bad_framing
decoded_of out_of_fuel = no_fuel

-- `capacity` is what std::string has after `reserve`; std::size_t has 64 bits.
unfoldable pub decode : (ℕ → ℕ) → List ℕ → ℕ → Decoded
decode capacity encoded max_body_bytes =
    if has_bounded_http_string_capacity (capacity (min (length encoded) max_body_bytes))
      max_body_bytes
    then decoded_of (decode_chunks (length encoded + 1) max_body_bytes [] encoded)
    else over_capacity
