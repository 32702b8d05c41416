-- ===== src/LinkPagination/Fields.antt =====
-- The fields of a received query, and what the loop of ValidateNextTarget reads of them,
-- src/runtime/pagination/link_pagination.cpp.
use duckdb_fdw.Base.{
  ℕ, ◌<◌, ◌≡◌, refl, sym, ap, subst, ◌∙◌, inl, inr, true, false, ◌||◌, Option, none, some,
  if◌then◌else◌, Bool-cases, List, [], ◌∷◌, ◌++◌, arith, u64_mod,
}
use duckdb_fdw.LinkPagination.{
  parse_positive_decimal, is_empty, same_text, has_byte, to_string, split_fields, split_equals,
  is_received, read_fields,
}
use duckdb_fdw.LinkPagination.Decimal.{IsPlain, parse_positive_decimal-to_string}

has_byte-plain :
    (xs : List ℕ) → IsPlain xs → (has_byte b'=' xs ≡ false) × (has_byte b'#' xs ≡ false)
unfolding has_byte
has_byte-plain [] p = (refl, refl)
has_byte-plain (x ∷ xs) p = ground (arith, p.0, has_byte-plain xs p.1)

split_equals-plain :
    (name value : List ℕ) → IsPlain name → split_equals (name ++ b'=' ∷ value) ≡ some (name, value)
unfolding split_equals
split_equals-plain [] value p = refl
split_equals-plain (x ∷ xs) value p = ground (arith, p.0, split_equals-plain xs value p.1)

-- A field ends where its separator stands.
split_fields-append :
    (xs ys : List ℕ)
    → has_byte b'&' xs ≡ false
    → split_fields (xs ++ b'&' ∷ ys) ≡ xs ∷ split_fields ys
unfolding split_fields has_byte
split_fields-append [] ys p = refl
split_fields-append (x ∷ xs) ys p = ground (arith, p, split_fields-append xs ys)

-- A text without the separator is one field.
split_fields-one : (xs : List ℕ) → has_byte b'&' xs ≡ false → split_fields xs ≡ xs ∷ []
unfolding split_fields has_byte
split_fields-one [] p = refl
split_fields-one (x ∷ xs) p = ground (arith, p, split_fields-one xs)

has_byte-append :
    (c : ℕ) (xs ys : List ℕ) → has_byte c (xs ++ ys) ≡ (has_byte c xs || has_byte c ys)
unfolding has_byte
has_byte-append c [] ys = refl
has_byte-append c (x ∷ xs) ys = ground (arith, has_byte-append c xs ys)

has_byte-amp : (xs : List ℕ) → IsPlain xs → has_byte b'&' xs ≡ false
unfolding has_byte
has_byte-amp [] p = refl
has_byte-amp (x ∷ xs) p = ground (arith, p.0, has_byte-amp xs p.1)

-- A field of a received query, by its name and its value.
abbrev pub Field : Type 0
Field = List ℕ × List ℕ

abbrev pub field_text : Field → List ℕ
field_text f = f.0 ++ b'=' ∷ f.1

abbrev pub query_of : Field → List Field → List ℕ
query_of f [] = field_text f
query_of f (g ∷ fs) = field_text f ++ b'&' ∷ query_of g fs

abbrev pub texts : List Field → List (List ℕ)
texts [] = []
texts (f ∷ fs) = field_text f ∷ texts fs

-- A name that is not empty, and no byte with a meaning in a query in it or in the value.
abbrev pub IsField : Field → Type 0
IsField f = IsPlain f.0 × (is_empty f.0 ≡ false) × IsPlain f.1

-- Fields of which no two have one name, and none has one of these names.
abbrev pub IsFields : List (List ℕ) → List Field → Type 0
IsFields names [] = Unit
IsFields names (f ∷ fs) = IsField f × (is_received f.0 names ≡ false) × IsFields (f.0 ∷ names) fs

abbrev pub value_of : List ℕ → List Field → Option (List ℕ)
value_of name [] = none
value_of name (f ∷ fs) = if same_text f.0 name then some f.1 else value_of name fs

field-clean :
    (f : Field)
    → IsField f
    → (has_byte b'&' (field_text f) ≡ false) × (has_byte b'#' (field_text f) ≡ false)
unfolding has_byte
field-clean f v = (
  has_byte-append b'&' f.0 (b'=' ∷ f.1) ∙ rw (has_byte-amp f.0 v.0, has_byte-amp f.1 v.2) refl,
  has_byte-append b'#' f.0 (b'=' ∷ f.1)
      ∙ rw ((has_byte-plain f.0 v.0).1, (has_byte-plain f.1 v.2).1) refl,
)

pub split_fields-query_of :
    (names : List (List ℕ)) (f : Field) (fs : List Field)
    → IsFields names (f ∷ fs)
    → split_fields (query_of f fs) ≡ texts (f ∷ fs)
split_fields-query_of names f [] v = split_fields-one (field_text f) (field-clean f v.0).0
split_fields-query_of names f (g ∷ fs) v =
    split_fields-append (field_text f) (query_of g fs) (field-clean f v.0).0
    ∙ rw (split_fields-query_of (f.0 ∷ names) g fs v.2) refl

pub query_of-clean :
    (names : List (List ℕ)) (f : Field) (fs : List Field)
    → IsFields names (f ∷ fs)
    → has_byte b'#' (query_of f fs) ≡ false
unfolding has_byte
query_of-clean names f [] v = (field-clean f v.0).1
query_of-clean names f (g ∷ fs) v =
    has_byte-append b'#' (field_text f) (b'&' ∷ query_of g fs)
    ∙ rw ((field-clean f v.0).1, query_of-clean (f.0 ∷ names) g fs v.2) refl

same_text_eq : (xs ys : List ℕ) → same_text xs ys ≡ true → xs ≡ ys
unfolding same_text
same_text_eq [] [] e = refl
same_text_eq (x ∷ xs) (y ∷ ys) e = ground (arith, e, same_text_eq xs ys)
same_text_eq _ _ e = ground (arith, e)

module _ (parameter : List ℕ) (f : Field) (rest : List (List ℕ)) (received : List (List ℕ))
    (parsed : ℕ) where
  read_fields-skip :
      IsField f
      → is_received f.0 received ≡ false
      → same_text f.0 parameter ≡ false
      → read_fields parameter (field_text f ∷ rest) received parsed
        ≡ read_fields parameter rest (f.0 ∷ received) parsed
  unfolding read_fields
  read_fields-skip v new other =
      rw (split_equals-plain f.0 f.1 v.0, read_fields)
        (rw (v.1, (has_byte-plain f.1 v.2).0, new, other) refl)

  read_fields-take :
      (page : ℕ)
      → IsField f
      → is_received f.0 received ≡ false
      → same_text f.0 parameter ≡ true
      → parse_positive_decimal f.1 ≡ some page
      → read_fields parameter (field_text f ∷ rest) received parsed
        ≡ read_fields parameter rest (f.0 ∷ received) page
  unfolding read_fields
  read_fields-take page v new this parses =
      rw (split_equals-plain f.0 f.1 v.0, read_fields)
        (rw (v.1, (has_byte-plain f.1 v.2).0, new, this) (rw parses refl))

-- A name that was received does not come again.
received-differs :
    (name parameter : List ℕ) (received : List (List ℕ))
    → is_received parameter received ≡ true
    → is_received name received ≡ false
    → same_text name parameter ≡ false
received-differs name parameter received old new = elim (Bool-cases (same_text name parameter)) [
  | inl same ↦
      let also : is_received name received ≡ true =
        subst (λ n. is_received n received ≡ true) (sym (same_text_eq name parameter same)) old in
      ground (arith, also, new)
  | inr other ↦ other
]

nothing_left :
    (parameter : List ℕ) (received : List (List ℕ)) (parsed : ℕ)
    → read_fields parameter [] received parsed ≡ some parsed
unfolding read_fields
nothing_left parameter received parsed = refl

read_fields-rest :
    (parameter : List ℕ) (fs : List Field) (received : List (List ℕ)) (parsed : ℕ)
    → is_received parameter received ≡ true
    → IsFields received fs
    → read_fields parameter (texts fs) received parsed ≡ some parsed
unfolding is_received
read_fields-rest parameter [] received parsed old v = nothing_left parameter received parsed
read_fields-rest parameter (f ∷ fs) received parsed old v =
    read_fields-skip parameter f (texts fs) received parsed v.0 v.1
      (received-differs f.0 parameter received old v.1)
    ∙ read_fields-rest parameter fs (f.0 ∷ received) parsed (ground (arith, old)) v.2

pub read_fields-value_of :
    (parameter : List ℕ) (page : ℕ) (fs : List Field) (received : List (List ℕ)) (parsed : ℕ)
    → 0 < page
    → page < u64_mod
    → IsFields received fs
    → value_of parameter fs ≡ some (to_string page)
    → read_fields parameter (texts fs) received parsed ≡ some page
unfolding is_received
read_fields-value_of parameter page [] received parsed some_page small v e = ground (arith, e)
read_fields-value_of parameter page (f ∷ fs) received parsed some_page small v e =
    elim (Bool-cases (same_text f.0 parameter)) [
      | inl this ↦
          let value : f.1 ≡ to_string page = ground (arith, e, this) in
          let parses : parse_positive_decimal f.1 ≡ some page =
            ap parse_positive_decimal value
            ∙ parse_positive_decimal-to_string page some_page small in
          read_fields-take parameter f (texts fs) received parsed page v.0 v.1 this parses
          ∙ read_fields-rest parameter fs (f.0 ∷ received) page (ground (arith, this)) v.2
      | inr other ↦
          read_fields-skip parameter f (texts fs) received parsed v.0 v.1 other
          ∙ read_fields-value_of parameter page fs (f.0 ∷ received) parsed some_page small v.2
              (ground (arith, e, other))
    ]
