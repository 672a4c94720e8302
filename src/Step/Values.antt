-- ===== src/Step/Values.antt =====
-- Schema identities and encoded values: crates/reiny/src/encoded.rs and step/value.rs.
use reiny.Prelude.{
  ℕ, ◌≡◌, ◌↔◌, ap, Bool, true, false, not, ◌&&◌, ◌||◌, [], ◌∷◌, Bytes, Map, Result, ok, err, refuse,
  ◌>>◌, ◌>>=◌, ◌==◌, ==_iff, bytes_eq, bytes_eq_iff, ◌===◌, ===_iff, all, between,
  is_ascii_alphanumeric, split, and_iff, list_equal, nat_equal, pair_equal,
}
use reiny.Core.{schema_fingerprint_version, MessageType}
use reiny.Bindings.Types.{BindingError}
use reiny.Bindings.Names.{validate_semantics}

pub record EncodedType : Type 0 where
  pub type_name : Bytes
  pub fingerprint_version : ℕ
  pub fingerprint : ℕ

pub data SchemaError : Type 0 where
  invalid_type_name : SchemaError
  unsupported_fingerprint_version : ℕ → ℕ → SchemaError

abbrev pub is_ascii_alphabetic : ℕ → Bool
is_ascii_alphabetic b = between b'A' b'Z' b || between b'a' b'z' b

-- A protobuf identifier.
abbrev pub is_identifier : Bytes → Bool
is_identifier [] = false
is_identifier (b ∷ bs) =
    (is_ascii_alphabetic b || b == b'_') && all (λ c. is_ascii_alphanumeric c || c == b'_') bs

-- `EncodedType::new`
unfoldable pub new_encoded : Bytes → ℕ → ℕ → Result SchemaError EncodedType
new_encoded name version print = do
  refuse (not (all is_identifier (split b'.' name))) invalid_type_name
  refuse (not (version == schema_fingerprint_version))
      (unsupported_fingerprint_version schema_fingerprint_version version)
  ok (record { type_name = name; fingerprint_version = version; fingerprint = print })

-- `EncodedType::of`
abbrev pub encoded_of : MessageType → Result SchemaError EncodedType
encoded_of T = new_encoded T.type_name schema_fingerprint_version T.schema_fingerprint

-- `StepType`, of which the variants are those of `TypeData`.
pub data StepType : Type 0 where
  compiled : Bytes → ℕ → StepType
  owned : Bytes → ℕ → Map Bytes Bytes → StepType

abbrev pub type_name : StepType → Bytes
type_name (compiled name print) = name
type_name (owned name print assertions) = name

abbrev pub fingerprint : StepType → ℕ
fingerprint (compiled name print) = print
fingerprint (owned name print assertions) = print

abbrev pub semantics : StepType → Map Bytes Bytes
semantics (compiled name print) = []
semantics (owned name print assertions) = assertions

-- `StepType::eq`: by what the accessors read, whichever variant holds it.
unfoldable pub type_eq : StepType → StepType → Bool
type_eq a b =
    bytes_eq (type_name a) (type_name b)
    && (fingerprint a == fingerprint b && semantics a === semantics b)

-- `StepType::of`
abbrev pub step_type_of : MessageType → StepType
step_type_of T = compiled T.type_name T.schema_fingerprint

-- `StepType::from_encoded_type`, which always succeeds.
abbrev pub from_encoded_type : EncodedType → StepType
from_encoded_type ty = owned ty.type_name ty.fingerprint []

abbrev pub set_semantics : Map Bytes Bytes → StepType → StepType
set_semantics assertions (compiled name print) = owned name print assertions
set_semantics assertions (owned name print old) = owned name print assertions

unfoldable pub with_semantics : StepType → Map Bytes Bytes → Result BindingError StepType
with_semantics ty assertions = do validate_semantics assertions; ok (set_semantics assertions ty)

pub record StepValue : Type 0 where
  pub step_type : StepType
  pub bytes : Bytes

-- `StepValue::with_semantics`
unfoldable pub value_with_semantics : StepValue → Map Bytes Bytes → Result BindingError StepValue
value_with_semantics value assertions = do
  ty ← with_semantics value.step_type assertions
  ok (record value { step_type = ty })

-- `StepValue::from_encoded`
abbrev pub from_encoded : StepType → Bytes → StepValue
from_encoded ty bytes = record { step_type = ty; bytes = bytes }

pub data StepValueError : Type 0 where
  type_mismatch : StepType → StepType → StepValueError
  undecodable : Bytes → Bytes → StepValueError

-- prost: the bytes of a message, and the decoder with its diagnostic.
module _ {A : Type 0} (T : MessageType) (encode_to_vec : A → Bytes)
    (prost_decode : Bytes → Result Bytes A) where
  abbrev pub encode : A → StepValue
  encode message = from_encoded (step_type_of T) (encode_to_vec message)

  abbrev pub decoded : StepValue → Result Bytes A → Result StepValueError A
  decoded value (ok message) = ok message
  decoded value (err diagnostic) = err (undecodable (type_name value.step_type) diagnostic)

  unfoldable pub decode : StepValue → Result StepValueError A
  decode value = do
    refuse
        (not (bytes_eq (type_name value.step_type) T.type_name)
          || not (fingerprint value.step_type == T.schema_fingerprint))
        (type_mismatch (step_type_of T) value.step_type)
    decoded value (prost_decode value.bytes)

-- What the accessors read.
abbrev pub identity : StepType → Bytes × (ℕ × Map Bytes Bytes)
identity ty = (type_name ty, (fingerprint ty, semantics ty))

pair_path : {A B : Type 0} {a c : A} {b d : B} → a ≡ c → b ≡ d → ◌≡◌ {A = A × B} (a, b) (c, d)
pair_path p q = cc

pub type_eq_iff : (a b : StepType) → (type_eq a b ≡ true) ↔ (identity a ≡ identity b)
unfolding type_eq
type_eq_iff a b =
    let parts =
      and_iff (bytes_eq_iff (type_name a) (type_name b))
        (and_iff (==_iff (fingerprint a) (fingerprint b)) (===_iff (semantics a) (semantics b))) in
    (
      λ same. let each = parts.0 same in pair_path each.0 (pair_path each.1.0 each.1.1),
      λ p. parts.1 (ap (λ q. q.0) p, (ap (λ q. q.1.0) p, ap (λ q. q.1.1) p)),
    )
