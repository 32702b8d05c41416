-- ===== src/ChunkDecoder.antt =====
-- The grammar of `DecodeHttpChunkedBody`, src/runtime/transport/http_chunk_decoder.cpp, where no check
-- of the execution's state ends it. A string is the list of its bytes. An offset into the encoded text
-- is the text from it on; an end is the end of the list. The exception of a malformed text is none.
pub mod Loops
pub mod Fuel
pub mod Bounds
pub mod Print
pub mod RoundTrip
mod Tests
use duckdb_fdw.Base.{
  ℕ, zero, suc, ◌+◌, ◌-◌, ◌*◌, ◌/◌, ◌%◌, ◌^◌, ◌≡◌, Bool, true, false, ◌&&◌, ◌||◌, not, Option, none,
  some, List, [], ◌∷◌, ◌++◌, min, ◌==◌, ltb, leb, if◌then◌else◌, length, u64_mod,
}

-- `HexValue`
unfoldable pub hex_value : ℕ → Option ℕ
hex_value value =
    if leb b'0' value && leb value b'9'
    then some (value - b'0')
    else if leb b'a' value && leb value b'f'
    then some (value - b'a' + 10)
    else if leb b'A' value && leb value b'F'
    then some (value - b'A' + 10)
    else none

unfoldable pub is_ows : ℕ → Bool
is_ows value = value == 32 || value == 9

unfoldable pub is_token_character : ℕ → Bool
is_token_character value =
    (leb b'a' value && leb value b'z')
    || (leb b'A' value && leb value b'Z')
    || (leb b'0' value && leb value b'9')
    || value == b'!'
    || value == b'#'
    || value == b'$'
    || value == b'%'
    || value == b'&'
    || value == 39
    || value == b'*'
    || value == b'+'
    || value == b'-'
    || value == b'.'
    || value == b'^'
    || value == b'_'
    || value == 96
    || value == b'|'
    || value == b'~'

unfoldable pub skip_ows : List ℕ → List ℕ
skip_ows [] = []
skip_ows (v ∷ rest) = let skipped = skip_ows rest in if is_ows v then skipped else v ∷ rest

unfoldable pub skip_token : List ℕ → List ℕ
skip_token [] = []
skip_token (v ∷ rest) =
    let skipped = skip_token rest in if is_token_character v then skipped else v ∷ rest

-- `ParseToken`: the text after a token of at least one character.
unfoldable pub parse_token : List ℕ → Option (List ℕ)
parse_token [] = none
parse_token (v ∷ rest) = if is_token_character v then some (skip_token rest) else none

-- The loop of `ParseQuotedString`, with the second character of a pair to come or not.
unfoldable pub quoted_rest : Bool → List ℕ → Option (List ℕ)
quoted_rest escaping [] = none
quoted_rest true (v ∷ rest) =
    let after = quoted_rest false rest in
    if not (v == 9) && not (v == 32) && (ltb v 33 || v == 127) then none else after
quoted_rest false (v ∷ rest) =
    let after = quoted_rest false rest in
    let escaped = quoted_rest true rest in
    if v == b'"'
    then some rest
    else if v == 92
    then escaped
    else if not (v == 9) && not (v == 32) && not (v == 33) && (ltb v 35 || v == 92 || v == 127)
    then none
    else after

unfoldable pub parse_quoted_string : List ℕ → Option (List ℕ)
parse_quoted_string [] = none
parse_quoted_string (v ∷ rest) = if v == b'"' then quoted_rest false rest else none

-- `FindCrlf`, and the two parts of the text around what it finds.
unfoldable pub split_crlf : List ℕ → Option (List ℕ × List ℕ)
split_crlf [] = none
split_crlf (v ∷ rest) =
    let later = split_crlf rest in
    elim rest [
      | [] ↦ none
      | w ∷ after ↦
          if v == 13 && w == 10
          then some ([], after)
          else elim later [ none ↦ none | some (line, text) ↦ some (v ∷ line, text) ]
    ]

-- The first loop of `ParseChunkSize`: the size, whether there was a digit, and the text left.
unfoldable pub read_size : ℕ → Bool → List ℕ → Option (ℕ × Bool × List ℕ)
read_size result saw_digit [] = some (result, saw_digit, [])
read_size result saw_digit (v ∷ rest) =
    if is_ows v || v == b';' then some (result, saw_digit, v ∷ rest) else elim (hex_value v) [
      | none ↦ none
      | some digit ↦
          let next = read_size ((result * 16 + digit) % u64_mod) true rest in
          if ltb ((u64_mod - 1 - digit) / 16) result then none else next
    ]

abbrev pub is_empty : List ℕ → Bool
is_empty [] = true
is_empty (v ∷ rest) = false

abbrev pub starts_with : ℕ → List ℕ → Bool
starts_with c [] = false
starts_with c (v ∷ rest) = v == c

abbrev pub tail : List ℕ → List ℕ
tail [] = []
tail (v ∷ rest) = rest

-- The value of an extension, where there is one.
unfoldable pub parse_value : List ℕ → Option (List ℕ)
parse_value text =
    if starts_with b'=' text
    then (if starts_with b'"' (skip_ows (tail text))
        then parse_quoted_string (skip_ows (tail text))
        else parse_token (skip_ows (tail text)))
    else some text

-- One pass of the second loop of `ParseChunkSize`, on a text that is not empty: the text left.
unfoldable pub parse_extension : List ℕ → Option (List ℕ)
parse_extension text =
    if not (starts_with b';' (skip_ows text))
    then none
    else elim (parse_token (skip_ows (tail (skip_ows text)))) [
      | none ↦ none
      | some named ↦
          if is_empty (skip_ows named)
          then (if is_empty named then some [] else none)
          else parse_value (skip_ows named)
    ]
