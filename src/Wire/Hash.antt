-- ===== src/Wire/Hash.antt =====
-- `type_hash` and `endpoint_hash` of crates/reiny-link/src/wire.rs: FNV-1a in 32 bits.
use reiny.Prelude.{
  ℕ, ◌*◌, ◌%◌, ◌^◌, ◌<◌, ◌≡◌, refl, sym, ◌∙◌, append_assoc, bit_xor, arith, List, [], ◌∷◌, ◌++◌,
  Bytes, length, ltb, to_le_bytes, if◌then◌else◌, IsU32, ap, lt→ltb, from_le_bytes,
  from_le_bytes-to_le_bytes,
}

-- `h ^= byte; h = h.wrapping_mul(0x0100_0193);`
abbrev fnv_step : ℕ → ℕ → ℕ
fnv_step h b = bit_xor h b * 0x0100_0193 % 2 ^ 32

-- The loop over the bytes that are left.
fnv_loop : ℕ → Bytes → ℕ
fnv_loop h [] = h
fnv_loop h (b ∷ bs) = fnv_loop (fnv_step h b) bs

abbrev offset_basis : ℕ
offset_basis = 0x811c_9dc5

unfoldable pub type_hash : Bytes → ℕ
unfolding fnv_loop
type_hash name = fnv_loop offset_basis name

-- `u32::try_from(component.len()).unwrap_or(u32::MAX)`
abbrev component_len : Bytes → ℕ
component_len component = if ltb (length component) (2 ^ 32) then length component else 0xffff_ffff

abbrev prefixed : Bytes → Bytes
prefixed component = to_le_bytes 4 (component_len component) ++ component

-- `hash = (hash ^ u32::from(*byte)).wrapping_mul(0x0100_0193);`
abbrev component_step : ℕ → ℕ → ℕ
component_step hash byte = bit_xor hash byte * 0x0100_0193 % 2 ^ 32

-- The inner loop, over the length's bytes and the component's.
component_loop : ℕ → Bytes → ℕ
component_loop hash [] = hash
component_loop hash (byte ∷ rest) = component_loop (component_step hash byte) rest

-- The outer loop, `for component in [namespace, port]`.
hash_components : ℕ → List Bytes → ℕ
unfolding component_loop
hash_components hash [] = hash
hash_components hash (component ∷ rest) =
    hash_components (component_loop hash (prefixed component)) rest

abbrev component_basis : ℕ
component_basis = 0x811c_9dc5

unfoldable pub endpoint_hash : Bytes → Bytes → ℕ
unfolding hash_components
endpoint_hash namespace port = hash_components component_basis (namespace ∷ port ∷ [])

-- The two loops are the same function.
component_loop-fnv_loop : (hash : ℕ) (bs : Bytes) → component_loop hash bs ≡ fnv_loop hash bs
unfolding component_loop fnv_loop
component_loop-fnv_loop hash [] = refl
component_loop-fnv_loop hash (b ∷ bs) = component_loop-fnv_loop (fnv_step hash b) bs

fnv_loop-append : (h : ℕ) (xs ys : Bytes) → fnv_loop h (xs ++ ys) ≡ fnv_loop (fnv_loop h xs) ys
unfolding fnv_loop
fnv_loop-append h [] ys = refl
fnv_loop-append h (x ∷ xs) ys = fnv_loop-append (fnv_step h x) xs ys

component_loop-IsU32 : (hash : ℕ) (bs : Bytes) → IsU32 hash → IsU32 (component_loop hash bs)
unfolding component_loop
component_loop-IsU32 hash [] r = r
component_loop-IsU32 hash (b ∷ bs) r = component_loop-IsU32 (component_step hash b) bs (omega arith)

pub endpoint_hash-IsU32 : (namespace port : Bytes) → IsU32 (endpoint_hash namespace port)
unfolding endpoint_hash
endpoint_hash-IsU32 namespace port =
    component_loop-IsU32 (component_loop component_basis (prefixed namespace)) (prefixed port)
      (component_loop-IsU32 component_basis (prefixed namespace) (omega arith))

-- What the hash is taken of: each component behind its length.
abbrev pub address_bytes : Bytes → Bytes → Bytes
address_bytes namespace port = prefixed namespace ++ prefixed port

endpoint_hash-address_bytes :
    (namespace port : Bytes)
    → endpoint_hash namespace port ≡ type_hash (address_bytes namespace port)
unfolding endpoint_hash type_hash
endpoint_hash-address_bytes namespace port =
    component_loop-fnv_loop (component_loop component_basis (prefixed namespace)) (prefixed port)
    ∙ ap (λ h. fnv_loop h (prefixed port))
        (component_loop-fnv_loop component_basis (prefixed namespace))
    ∙ sym (fnv_loop-append offset_basis (prefixed namespace) (prefixed port))

append-cancel :
    (xs xs' : Bytes) {ys ys' : Bytes}
    → length xs ≡ length xs'
    → xs ++ ys ≡ xs' ++ ys'
    → (xs ≡ xs') × (ys ≡ ys')
append-cancel [] [] h e = (refl, e)
append-cancel [] (x ∷ xs) h e = absurd (omega arith)
append-cancel (x ∷ xs) [] h e = absurd (omega arith)
append-cancel (x ∷ xs) (x' ∷ xs') {ys = ys} {ys' = ys'} h e =
    let rest = append-cancel xs xs' {ys = ys} {ys' = ys'} (omega arith) (cc) in
    (cc (rest.0), rest.1)

component_len-small : (xs : Bytes) → length xs < 2 ^ 32 → component_len xs ≡ length xs
component_len-small xs h = rw (lt→ltb _ _ h)

prefixed-cancel :
    (xs xs' : Bytes) {ys ys' : Bytes}
    → length xs < 2 ^ 32
    → length xs' < 2 ^ 32
    → prefixed xs ++ ys ≡ prefixed xs' ++ ys'
    → (xs ≡ xs') × (ys ≡ ys')
prefixed-cancel xs xs' {ys = ys} {ys' = ys'} h h' e =
    append-cancel xs xs' (sym (component_len-small xs h) ∙ len_eq ∙ component_len-small xs' h')
      parts.1
  where
    len : ℕ
    len = component_len xs

    len' : ℕ
    len' = component_len xs'

    parts : (to_le_bytes 4 len ≡ to_le_bytes 4 len') × (xs ++ ys ≡ xs' ++ ys')
    parts =
        append-cancel (to_le_bytes 4 len) (to_le_bytes 4 len') {ys = xs ++ ys} {ys' = xs' ++ ys'}
          refl
          (sym (append_assoc (to_le_bytes 4 len) xs ys)
            ∙ e
            ∙ append_assoc (to_le_bytes 4 len') xs' ys')

    len_eq : len ≡ len'
    len_eq =
        sym (from_le_bytes-to_le_bytes 4 len (ground arith))
        ∙ ap from_le_bytes (parts.0)
        ∙ from_le_bytes-to_le_bytes 4 len' (ground arith)

-- `endpoint_hash` is the FNV-1a hash of a byte string that names one address only: two addresses
-- whose components are shorter than 4 GiB share that byte string only if they are equal.
pub endpoint_hash_address :
    (namespace port namespace' port' : Bytes)
    → length namespace < 2 ^ 32
    → length port < 2 ^ 32
    → length namespace' < 2 ^ 32
    → length port' < 2 ^ 32
    → (endpoint_hash namespace port ≡ type_hash (address_bytes namespace port))
      × (address_bytes namespace port ≡ address_bytes namespace' port'
          → (namespace ≡ namespace') × (port ≡ port'))
endpoint_hash_address namespace port namespace' port' hn hp hn' hp' =
    (endpoint_hash-address_bytes namespace port, same)
  where
    same :
        address_bytes namespace port ≡ address_bytes namespace' port'
        → (namespace ≡ namespace') × (port ≡ port')
    same e =
        let outer =
          prefixed-cancel namespace namespace' {ys = prefixed port} {ys' = prefixed port'} hn hn'
            e in
        let padded = ap (λ (bs : Bytes). bs ++ []) (outer.1) in
        (outer.0, (prefixed-cancel port port' {ys = []} {ys' = []} hp hp' padded).0)
