-- ===== src/Bindings/Names.antt =====
-- The checks on names of crates/reiny-core/src/bindings.rs.
use reiny.Prelude.{
  Bool, not, ◌&&◌, ◌||◌, Bytes, codes, Map, bytes_eq, ◌==◌, all, Result, refuse, is_empty,
  contains_byte, has_space, is_blank, split, is_ascii_alphanumeric, String,
}
use reiny.Bindings.Types.{BindingError}

-- `Err(BindingError(message))` where the condition fails.
abbrev pub require : Bool → String → Result BindingError (Unit {0})
require condition message = refuse (not condition) (record { message = codes message })

-- `matches!(value, "." | "..")`
abbrev pub is_dots : Bytes → Bool
is_dots value = bytes_eq value (codes ".") || bytes_eq value (codes "..")

-- `value.contains(['/', '*', '?', '#', '$', '@'])`
abbrev pub has_mark : Bytes → Bool
has_mark value =
    contains_byte b'/' value
    || contains_byte b'*' value
    || contains_byte b'?' value
    || contains_byte b'#' value
    || contains_byte b'$' value
    || contains_byte b'@' value

unfoldable pub segment : Bytes → Bool
segment value =
    not (is_empty value) && not (is_dots value) && not (has_mark value) && not (has_space value)

abbrev pub type_part : Bytes → Bool
type_part part = not (is_empty part) && all (λ b. is_ascii_alphanumeric b || b == b'_') part

unfoldable pub type_name : Bytes → Bool
type_name value = all type_part (split b'.' value)

unfoldable pub validate_namespace : Bytes → Result BindingError (Unit {0})
validate_namespace value =
    require (all (λ part. segment part && not (is_dots part)) (split b'/' value))
      "invalid module namespace"

unfoldable pub validate_port_name : Bytes → Result BindingError (Unit {0})
validate_port_name value = require (segment value) "invalid endpoint name"

unfoldable pub validate_semantics : Map Bytes Bytes → Result BindingError (Unit {0})
validate_semantics semantics =
    require (all (λ pair. not (is_blank pair.0) && not (is_blank pair.1)) semantics)
      "semantic assertion keys and values must not be blank"
