-- ===== src/LinkPagination/Target.antt =====
-- A target as a server writes it, for the check ValidateNextTarget of
-- src/runtime/pagination/link_pagination.cpp.
use duckdb_fdw.Base.{ℕ, ◌+◌, ◌<◌, ◌≡◌, refl, ◌∙◌, false, some, List, [], ◌∷◌, ◌++◌, arith, u64_mod}
use duckdb_fdw.LinkPagination.{
  Profile, is_empty, strip, to_string, next_page, check_page, validate_query, validate_path,
  authority, validate_next_target,
}
use duckdb_fdw.LinkPagination.Fields.{
  Field, query_of, IsField, IsFields, value_of, field_text, split_fields-query_of, query_of-clean,
  read_fields-value_of,
}

strip-append : (p text : List ℕ) → strip p (p ++ text) ≡ some text
unfolding strip
strip-append [] text = refl
strip-append (x ∷ xs) text = ground (arith, strip-append xs text)

-- The origin with its port, the path, and the fields.
abbrev pub target_of : Profile → Field → List Field → List ℕ
target_of profile f fs =
    authority profile
    ++ ((b':' ∷ to_string profile.port) ++ ((profile.path ++ b'?' ∷ []) ++ query_of f fs))

next_page-fits :
    (current increment : ℕ)
    → current + increment < u64_mod
    → next_page current increment ≡ some (current + increment)
unfolding next_page
next_page-fits current increment small = ground (arith, small)

query-not_empty : (name value : List ℕ) → is_empty name ≡ false → is_empty (name ++ value) ≡ false
query-not_empty [] value e = ground (arith, e)
query-not_empty (x ∷ xs) value e = refl

same_page : (page : ℕ) → check_page page (some page) ≡ some page
unfolding check_page
same_page page = ground arith

query_of-not_empty : (f : Field) (fs : List Field) → IsField f → is_empty (query_of f fs) ≡ false
query_of-not_empty f [] v = query-not_empty f.0 (b'=' ∷ f.1) v.1
query_of-not_empty f (g ∷ fs) v =
    query-not_empty (field_text f) (b'&' ∷ query_of g fs) (query-not_empty f.0 (b'=' ∷ f.1) v.1)

validate_query-query_of :
    (profile : Profile) (current : ℕ) (f : Field) (fs : List Field)
    → IsFields [] (f ∷ fs)
    → value_of profile.page_number_parameter (f ∷ fs)
      ≡ some (to_string (current + profile.page_increment))
    → 0 < current + profile.page_increment
    → current + profile.page_increment < u64_mod
    → validate_query profile current (query_of f fs) ≡ some (current + profile.page_increment)
unfolding validate_query
validate_query-query_of profile current f fs v names_page some_page small =
    let page = current + profile.page_increment in
    rw (query_of-not_empty f fs v.0, query_of-clean [] f fs v, validate_query)
      (rw (split_fields-query_of [] f fs v) (
        rw
          (read_fields-value_of profile.page_number_parameter page (f ∷ fs) [] 0 some_page small v
            names_page)
          (rw (next_page-fits current profile.page_increment small) (same_page page))))

validate_path-query :
    (profile : Profile) (current : ℕ) (query : List ℕ)
    → validate_path profile current ((profile.path ++ b'?' ∷ []) ++ query)
      ≡ validate_query profile current query
unfolding validate_path
validate_path-query profile current query =
    rw (strip-append (profile.path ++ b'?' ∷ []) query, validate_path) refl

-- A target with the exact origin and its port, the exact path, and fields of which one names the page
-- that follows is accepted, where the fields have different names that are not empty, no byte with a
-- meaning in a query stands in a name or a value, and the page is positive and fits in uint64_t. Which
-- other fields it has, and which query parameters the profile has, makes no difference.
pub validate_next_target-target_of :
    (profile : Profile) (current : ℕ) (f : Field) (fs : List Field)
    → IsFields [] (f ∷ fs)
    → value_of profile.page_number_parameter (f ∷ fs)
      ≡ some (to_string (current + profile.page_increment))
    → 0 < current + profile.page_increment
    → current + profile.page_increment < u64_mod
    → validate_next_target (target_of profile f fs) current profile
      ≡ some (current + profile.page_increment)
unfolding validate_next_target
validate_next_target-target_of profile current f fs v names_page some_page small =
    let query = query_of f fs in
    let path = profile.path ++ b'?' ∷ [] in
    let port = b':' ∷ to_string profile.port in
    rw (strip-append (authority profile) (port ++ (path ++ query)), validate_next_target)
      (rw (strip-append port (path ++ query)) (
        validate_path-query profile current query
        ∙ validate_query-query_of profile current f fs v names_page some_page small))
