-- ===== src/Bindings/Module/Identity.antt =====
-- What accepted bindings say of the module's identity (`validate_identity`).
use reiny.Prelude.{
  ◌≡◌, refl, ◌⊎◌, inl, inr, true, false, not, ◌&&◌, Option, none, some, ◌++◌, Bytes, codes, ok,
  is_some_and, bytes_eq, bytes_eq_iff, is_empty, contains_byte, strip_prefix-eq-some, seq_iff,
  require_iff, iff_refl, and_iff, or_rest, not_iff, Bool-cases, ==_iff,
}
use reiny.Bindings.Types.{module_bindings_version, ModuleBindings}
use reiny.Bindings.Names.{validate_namespace}
use reiny.Bindings.Module.{is_nil, owned_child, validate_identity, validate_bindings}
use reiny.Bindings.Module.Parts.{validate_bindings_parts}

-- The namespace of a child that the host owns: one more segment below `owned`.
abbrev pub IsOwned : ModuleBindings → Type 0
IsOwned b =
    (child : Bytes) × ((b.namespace ≡ (b.endpoint_namespace ++ codes "/owned/") ++ child)
      × ((is_empty child ≡ false)
          × ((contains_byte b'/' child ≡ false) × (is_nil b.children ≡ true))))

owned_child-IsOwned :
    (b : ModuleBindings) (found : Option Bytes)
    → owned_child b ≡ found
    → is_some_and found (λ child. not (is_empty child) && not (contains_byte b'/' child)) ≡ true
    → is_nil b.children ≡ true
    → IsOwned b
unfolding owned_child
owned_child-IsOwned b none e h alone = cc
owned_child-IsOwned b (some child) e h alone =
    let both = (and_iff (not_iff (is_empty child)) (not_iff (contains_byte b'/' child))).0 h in
    (child, (strip_prefix-eq-some _ b.namespace child e, (both.0, (both.1, alone))))

-- Accepted bindings are of the supported version and under a valid namespace, which is the endpoint
-- namespace itself or one segment below its `owned`, and in the second case the module delegates
-- nothing.
pub validate_bindings-IsOwned :
    (b : ModuleBindings)
    → validate_bindings b ≡ ok tt
    → (b.version ≡ module_bindings_version)
      × ((validate_namespace b.namespace ≡ ok tt)
          × ((b.namespace ≡ b.endpoint_namespace) ⊎ IsOwned b))
unfolding validate_identity
validate_bindings-IsOwned b done =
    let parts =
      (seq_iff (require_iff _ _ (==_iff b.version module_bindings_version)) (
          seq_iff (iff_refl _) (
            seq_iff (iff_refl _)
              (seq_iff (require_iff _ _ (iff_refl _)) (require_iff _ _ (iff_refl _)))))).0
        (validate_bindings_parts b done).0 in
    (
      parts.0,
      (
        parts.1.0,
        elim (Bool-cases (bytes_eq b.namespace b.endpoint_namespace)) [
          | inl e ↦ inl ((bytes_eq_iff b.namespace b.endpoint_namespace).0 e)
          | inr e ↦ inr (
              owned_child-IsOwned b (owned_child b) refl (or_rest parts.1.1.1.0 e)
                (or_rest parts.1.1.1.1 e))
        ],
      ),
    )
