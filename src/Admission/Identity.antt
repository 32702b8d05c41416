-- ===== src/Admission/Identity.antt =====
-- Who asks for admission: src/runtime/execution/admission_controller.cpp (principal tokens,
-- `AdmissionIdentity`, the bulkhead key and the hashes) and the one opaque principal of the program,
-- `CredentialAuthorityAdmissionIdentity` of src/runtime/execution/http_scan_executor.cpp.
-- A shared pointer to an opaque identity is modelled by the identity: `operator==` tests the
-- addresses first, and equal addresses are one object, which `Equals` accepts.
use duckdb_fdw.Base.{
  ℕ, ◌+◌, ◌*◌, ◌/◌, ◌%◌, ◌^◌, ◌≡◌, ◌↔◌, Bool, true, false, ◌&&◌, ◌||◌, Option, none, some, List, [],
  ◌∷◌, String, str_eq, eq_iff, arith, ◌==◌, if◌then◌else◌, u64_mod, bit_xor,
}
use duckdb_fdw.Admission.Counts.{CountKey}

-- `std::hash` of the standard library, at the types that the program hashes.
pub record Hasher : Type 0 where
  pub string : String → ℕ
  pub u16 : ℕ → ℕ
  pub u8 : ℕ → ℕ
  pub pointer : ℕ → ℕ

-- left ^ (right + 0x9e3779b9 + (left << 6) + (left >> 2)), on 64 bits
unfoldable pub combine_hash : ℕ → ℕ → ℕ
combine_hash left right =
    bit_xor left ((right + 0x9e3779b9 + left * 2 ^ 6 % u64_mod + left / 2 ^ 2) % u64_mod)

-- `std::array<uint8_t, 16>::operator==`
unfoldable pub bytes_eq : List ℕ → List ℕ → Bool
bytes_eq [] [] = true
bytes_eq [] (b ∷ bs) = false
bytes_eq (a ∷ as') [] = false
bytes_eq (a ∷ as') (b ∷ bs) = a == b && bytes_eq as' bs

pub bytes_eq_iff : (as' bs : List ℕ) → (bytes_eq as' bs ≡ true) ↔ (as' ≡ bs)
unfolding bytes_eq
bytes_eq_iff [] [] = ground arith
bytes_eq_iff [] (b ∷ bs) = ground arith
bytes_eq_iff (a ∷ as') [] = ground arith
bytes_eq_iff (a ∷ as') (b ∷ bs) = ground (arith, bytes_eq_iff as' bs)

-- The loop of `HashIdentity`, on a 64-bit size_t.
unfoldable pub hash_bytes : ℕ → List ℕ → ℕ
hash_bytes result [] = result
hash_bytes result (byte ∷ bytes) = hash_bytes (bit_xor result byte * 1099511628211 % u64_mod) bytes

unfoldable pub hash_identity : List ℕ → ℕ
unfolding hash_bytes
hash_identity bytes = hash_bytes 1469598103934665603 bytes

-- An opaque identity: its class, by the address of the class's tag, and its authority bytes.
pub record OpaqueIdentity : Type 0 where
  pub type_tag : ℕ
  pub authority : List ℕ

unfoldable pub opaque_equals : OpaqueIdentity → OpaqueIdentity → Bool
unfolding bytes_eq
opaque_equals a b = b.type_tag == a.type_tag && bytes_eq a.authority b.authority

pub data DirectPrincipal : Type 0 where
  bearer credential : DirectPrincipal

abbrev pub direct_tag : DirectPrincipal → ℕ
direct_tag bearer = 0
direct_tag credential = 1

pub data PrincipalToken : Type 0 where
  anonymous : PrincipalToken
  direct : DirectPrincipal → PrincipalToken
  opaque_authority : OpaqueIdentity → PrincipalToken

unfoldable pub principal_hash : Hasher → PrincipalToken → ℕ
unfolding combine_hash hash_identity
principal_hash h anonymous = 0
principal_hash h (direct d) = h.u8 (direct_tag d)
principal_hash h (opaque_authority i) =
    combine_hash (h.pointer i.type_tag) (hash_identity i.authority)

unfoldable pub principal_eq : PrincipalToken → PrincipalToken → Bool
principal_eq anonymous anonymous = true
principal_eq (direct a) (direct b) = direct_tag a == direct_tag b
principal_eq (opaque_authority a) (opaque_authority b) =
    a.type_tag == b.type_tag && opaque_equals a b
principal_eq _ _ = false

pub principal_eq_iff : (a b : PrincipalToken) → (principal_eq a b ≡ true) ↔ (a ≡ b)
unfolding principal_eq opaque_equals
principal_eq_iff anonymous anonymous = ground arith
principal_eq_iff (direct bearer) (direct bearer) = ground arith
principal_eq_iff (direct credential) (direct credential) = ground arith
principal_eq_iff (opaque_authority a) (opaque_authority b) =
    ground (arith, bytes_eq_iff a.authority b.authority)
principal_eq_iff _ _ = ground arith

pub record DestinationKey : Type 0 where
  pub scheme : String
  pub host : String
  pub explicit_port : ℕ

unfoldable pub destination_equal : DestinationKey → DestinationKey → Bool
destination_equal a b =
    str_eq a.scheme b.scheme && str_eq a.host b.host && a.explicit_port == b.explicit_port

pub destination_equal_iff : (a b : DestinationKey) → (destination_equal a b ≡ true) ↔ (a ≡ b)
unfolding destination_equal
destination_equal_iff a b = ground (arith, eq_iff a.scheme b.scheme, eq_iff a.host b.host)

unfoldable pub destination_hash : Hasher → DestinationKey → ℕ
unfolding combine_hash
destination_hash h d =
    combine_hash (combine_hash (h.string d.scheme) (h.string d.host)) (h.u16 d.explicit_port)

pub data Protocol : Type 0 where
  rest graphql : Protocol

abbrev pub protocol_code : Protocol → ℕ
protocol_code rest = 0
protocol_code graphql = 1

pub record Identity : Type 0 where
  pub connector_id : String
  pub destination : DestinationKey
  pub complete : Bool
  pub relation_id : String
  pub protocol : Protocol
  pub operation_id : String
  pub principal : PrincipalToken

abbrev empty_string : String → Bool
empty_string s = str_eq s ""

-- The constructor of `AdmissionIdentity`: `none` is std::invalid_argument.
unfoldable pub make_identity : Identity → Option Identity
make_identity i =
    if empty_string i.connector_id
      || empty_string i.destination.scheme
      || empty_string i.destination.host
      || i.destination.explicit_port == 0
      || (i.complete && (empty_string i.relation_id || empty_string i.operation_id))
    then none
    else some i

unfoldable pub preliminary : String → DestinationKey → Option Identity
preliminary connector_id destination = make_identity (record {
  connector_id = connector_id;
  destination = destination;
  complete = false;
  relation_id = "";
  protocol = rest;
  operation_id = "";
  principal = anonymous;
})

unfoldable pub complete_identity :
    String → DestinationKey → String → Protocol → String → PrincipalToken → Option Identity
complete_identity connector_id destination relation_id protocol operation_id principal =
    make_identity (record {
      connector_id = connector_id;
      destination = destination;
      complete = true;
      relation_id = relation_id;
      protocol = protocol;
      operation_id = operation_id;
      principal = principal;
    })

pub record BulkheadKey : Type 0 where
  pub connector_id : String
  pub destination : DestinationKey
  pub relation_id : String
  pub protocol : Protocol
  pub operation_id : String
  pub principal : PrincipalToken

unfoldable pub to_bulkhead : Identity → BulkheadKey
to_bulkhead i = record {
  connector_id = i.connector_id;
  destination = i.destination;
  relation_id = i.relation_id;
  protocol = i.protocol;
  operation_id = i.operation_id;
  principal = i.principal;
}

-- `BulkheadEqual` and `BulkheadHash` read an identity; it has the fields of its bulkhead key.
unfoldable pub bulkhead_equal : BulkheadKey → BulkheadKey → Bool
bulkhead_equal a b =
    str_eq a.connector_id b.connector_id
    && destination_equal a.destination b.destination
    && str_eq a.relation_id b.relation_id
    && protocol_code a.protocol == protocol_code b.protocol
    && str_eq a.operation_id b.operation_id
    && principal_eq a.principal b.principal

protocol_code_iff : (a b : Protocol) → ((protocol_code a == protocol_code b) ≡ true) ↔ (a ≡ b)
protocol_code_iff rest rest = ground arith
protocol_code_iff graphql graphql = ground arith
protocol_code_iff _ _ = ground arith

pub bulkhead_equal_iff : (a b : BulkheadKey) → (bulkhead_equal a b ≡ true) ↔ (a ≡ b)
unfolding bulkhead_equal
bulkhead_equal_iff a b = ground (
  arith,
  eq_iff a.connector_id b.connector_id,
  destination_equal_iff a.destination b.destination,
  eq_iff a.relation_id b.relation_id,
  protocol_code_iff a.protocol b.protocol,
  eq_iff a.operation_id b.operation_id,
  principal_eq_iff a.principal b.principal,
)

unfoldable pub bulkhead_hash : Hasher → BulkheadKey → ℕ
unfolding combine_hash
bulkhead_hash h i =
    combine_hash
      (combine_hash
        (combine_hash
          (combine_hash (combine_hash (h.string i.connector_id) (destination_hash h i.destination))
            (h.string i.relation_id))
          (h.u8 (protocol_code i.protocol)))
        (h.string i.operation_id))
      (principal_hash h i.principal)

module _ (h : Hasher) where
  abbrev pub connector_key : CountKey String
  connector_key = record { beq = str_eq; hash = h.string; beq_iff = eq_iff }

  abbrev pub destination_key : CountKey DestinationKey
  destination_key = record {
    beq = destination_equal;
    hash = destination_hash h;
    beq_iff = destination_equal_iff;
  }

  abbrev pub principal_key : CountKey PrincipalToken
  principal_key = record { beq = principal_eq; hash = principal_hash h; beq_iff = principal_eq_iff }

  abbrev pub bulkhead_key : CountKey BulkheadKey
  bulkhead_key = record {
    beq = bulkhead_equal;
    hash = bulkhead_hash h;
    beq_iff = bulkhead_equal_iff;
  }

unfoldable pub uses_principal : Identity → Bool
uses_principal i = i.complete && elim i.principal [ opaque_authority o ↦ true | _ ↦ false ]
