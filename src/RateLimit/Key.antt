-- ===== src/RateLimit/Key.antt =====
-- `QuotaBucketKey`, the principal tokens in it, their equality and their hash, from
-- src/runtime/execution/rate_limit_coordinator.cpp; the one opaque principal of the program is
-- `CredentialAuthorityRateLimitIdentity` of src/runtime/execution/http_scan_executor.cpp.
use duckdb_fdw.Base.{
  ℕ, ◌≡◌, ◌↔◌, Bool, true, false, not, ◌&&◌, Option, none, some, String, str_eq, eq_iff, arith,
  ◌==◌, if◌then◌else◌,
}
use duckdb_fdw.Admission.Identity.{
  combine_hash, OpaqueIdentity, opaque_equals, bytes_eq_iff, hash_identity,
}
use duckdb_fdw.RateLimit.Table.{KeyEq}

-- `std::hash` at the types that the key hashes.
pub record KeyHasher : Type 0 where
  pub string : String → ℕ
  pub u16 : ℕ → ℕ
  pub u64 : ℕ → ℕ
  pub unsigned : ℕ → ℕ
  pub boolean : Bool → ℕ

pub data Principal : Type 0 where
  anonymous : Principal
  shared : String → Principal
  opaque_authority : OpaqueIdentity → Principal

-- `RateLimitPrincipalToken::Shared`; none is std::invalid_argument.
unfoldable pub shared_principal : String → Option Principal
shared_principal admitted_tag = if str_eq admitted_tag "" then none else some (shared admitted_tag)

-- The tags are compared, and `Equals` compares the tags again and the authorities.
unfoldable pub principal_equal : Principal → Principal → Bool
principal_equal anonymous anonymous = true
principal_equal (shared a) (shared b) = str_eq a b
principal_equal (opaque_authority a) (opaque_authority b) =
    a.type_tag == b.type_tag && opaque_equals a b
principal_equal _ _ = false

principal_equal_iff : (a b : Principal) → (principal_equal a b ≡ true) ↔ (a ≡ b)
unfolding principal_equal opaque_equals
principal_equal_iff anonymous anonymous = ground arith
principal_equal_iff (shared a) (shared b) = ground (arith, eq_iff a b)
principal_equal_iff (opaque_authority a) (opaque_authority b) =
    ground (arith, bytes_eq_iff a.authority b.authority)
principal_equal_iff _ _ = ground arith

-- `static_cast<unsigned>(kind)`
abbrev kind_code : Principal → ℕ
kind_code anonymous = 0
kind_code (shared tag) = 1
kind_code (opaque_authority identity) = 2

pub record Destination : Type 0 where
  pub scheme : String
  pub host : String
  pub explicit_port : ℕ

pub record Operation : Type 0 where
  pub connector_id : String
  pub package_major : ℕ
  pub operation_family : String

-- `remote_bucket` is some text where `has_remote_bucket` is set.
pub record QuotaBucketKey : Type 0 where
  pub destination : Destination
  pub operation : Operation
  pub principal : Principal
  pub remote_bucket : Option String

-- The constructor; none is std::invalid_argument.
unfoldable pub make_key :
    Destination → Operation → Principal → Bool → String → Option QuotaBucketKey
make_key destination operation principal has_remote_bucket remote_bucket =
    if not has_remote_bucket && not (str_eq remote_bucket "")
    then none
    else some (record {
      destination = destination;
      operation = operation;
      principal = principal;
      remote_bucket = if has_remote_bucket then some remote_bucket else none;
    })

unfoldable pub same_bucket : Option String → Option String → Bool
same_bucket none none = true
same_bucket (some a) (some b) = str_eq a b
same_bucket _ _ = false

same_bucket_iff : (a b : Option String) → (same_bucket a b ≡ true) ↔ (a ≡ b)
unfolding same_bucket
same_bucket_iff none none = ground arith
same_bucket_iff (some a) (some b) = ground (arith, eq_iff a b)
same_bucket_iff _ _ = ground arith

unfoldable pub same_key : QuotaBucketKey → QuotaBucketKey → Bool
same_key a b =
    str_eq a.destination.scheme b.destination.scheme
    && str_eq a.destination.host b.destination.host
    && a.destination.explicit_port == b.destination.explicit_port
    && str_eq a.operation.connector_id b.operation.connector_id
    && a.operation.package_major == b.operation.package_major
    && str_eq a.operation.operation_family b.operation.operation_family
    && principal_equal a.principal b.principal
    && same_bucket a.remote_bucket b.remote_bucket

-- Two keys are one key of the table exactly where they are equal in every part.
pub same_key_iff : (a b : QuotaBucketKey) → (same_key a b ≡ true) ↔ (a ≡ b)
unfolding same_key
same_key_iff a b = ground (
  arith,
  eq_iff a.destination.scheme b.destination.scheme,
  eq_iff a.destination.host b.destination.host,
  eq_iff a.operation.connector_id b.operation.connector_id,
  eq_iff a.operation.operation_family b.operation.operation_family,
  principal_equal_iff a.principal b.principal,
  same_bucket_iff a.remote_bucket b.remote_bucket,
)

instance abbrev pub bucket_key : KeyEq QuotaBucketKey
bucket_key = record { beq = same_key; beq_iff = same_key_iff }

-- `QuotaBucketKeyHash`.
unfoldable pub principal_code : KeyHasher → Principal → ℕ
principal_code h anonymous = h.unsigned (kind_code anonymous)
principal_code h (shared tag) = combine_hash (h.unsigned (kind_code (shared tag))) (h.string tag)
principal_code h (opaque_authority identity) =
    combine_hash (h.unsigned (kind_code (opaque_authority identity)))
      (hash_identity identity.authority)

unfoldable pub key_hash : KeyHasher → QuotaBucketKey → ℕ
key_hash h key =
    let scheme = h.string key.destination.scheme in
    let host = combine_hash scheme (h.string key.destination.host) in
    let port = combine_hash host (h.u16 key.destination.explicit_port) in
    let connector = combine_hash port (h.string key.operation.connector_id) in
    let major = combine_hash connector (h.u64 key.operation.package_major) in
    let family = combine_hash major (h.string key.operation.operation_family) in
    let principal = combine_hash family (principal_code h key.principal) in
    elim key.remote_bucket [
      | none ↦ combine_hash principal (h.boolean false)
      | some bucket ↦ combine_hash (combine_hash principal (h.boolean true)) (h.string bucket)
    ]
