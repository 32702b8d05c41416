-- ===== src/ChunkDecoder/Tests.antt =====
-- The chunk decoder at concrete inputs.
use duckdb_fdw.Base.{ℕ, ◌≤◌, ◌≡◌, ◌≢◌, refl, true, List, [], ◌∷◌, arith, length}
use duckdb_fdw.ChunkDecoder.{
  split_crlf, read_size, hex_value, is_ows, skip_ows, is_token_character, skip_token, parse_token,
  quoted_rest, parse_quoted_string, parse_value, parse_extension,
}
use duckdb_fdw.ChunkDecoder.Loops.{
  body, no_fuel, decode, has_bounded_http_string_capacity, http_string_allocation_limit,
  decode_chunks, parse_chunk_size, read_extensions, trailer_lines, validate_trailers, is_trailer,
  is_field_text, take, drop,
}
use duckdb_fdw.ChunkDecoder.Fuel.{decode-total}
use duckdb_fdw.ChunkDecoder.Bounds.{decode-bounds}
use duckdb_fdw.ChunkDecoder.Print.{encode, print_hex}
use duckdb_fdw.ChunkDecoder.RoundTrip.{decode-encode}

-- A string that allocates what is reserved.
abbrev exact : ℕ → ℕ
exact n = n

abbrev chunks : List (List ℕ)
chunks = (b'a' ∷ b'b' ∷ b'c' ∷ []) ∷ (13 ∷ 10 ∷ []) ∷ []

-- `2;x="y"`, two bytes, the last chunk and a trailer.
abbrev extended_text : List ℕ
extended_text =
    b'2' ∷ b';' ∷ b'x' ∷ b'=' ∷ b'"' ∷ b'y' ∷ b'"' ∷ 13 ∷ 10 ∷ b'o' ∷ b'k' ∷ 13 ∷ 10 ∷ b'0' ∷ 13
    ∷ 10 ∷ b't' ∷ b':' ∷ 32 ∷ b'v' ∷ 13 ∷ 10 ∷ 13 ∷ 10 ∷ []

extended_body : decode exact extended_text 100 ≡ body (b'o' ∷ b'k' ∷ [])
unfolding decode has_bounded_http_string_capacity http_string_allocation_limit decode_chunks
    split_crlf parse_chunk_size read_size hex_value is_ows skip_ows is_token_character skip_token
    parse_token quoted_rest parse_quoted_string parse_value parse_extension read_extensions
    trailer_lines validate_trailers is_trailer is_field_text take drop
extended_body = refl

roomy : has_bounded_http_string_capacity (exact 20) 100 ≡ true
unfolding has_bounded_http_string_capacity http_string_allocation_limit
roomy = refl

decode-total_example : decode exact extended_text 100 ≢ no_fuel
decode-total_example = decode-total exact extended_text 100

decode-bounds_example : (2 ≤ 100) × (2 ≤ length extended_text)
decode-bounds_example = decode-bounds exact extended_text (b'o' ∷ b'k' ∷ []) 100 extended_body

decode-encode_example : decode exact (encode chunks) 100 ≡ body (b'a' ∷ b'b' ∷ b'c' ∷ 13 ∷ 10 ∷ [])
unfolding encode print_hex has_bounded_http_string_capacity http_string_allocation_limit
decode-encode_example =
    decode-encode exact chunks 100 (refl, (refl, tt)) (omega arith) (omega arith) roomy
