-- ===== src/Wire/HelloWriter/Laws.antt =====
-- The bytes of a Hello, which `hello_write` leaves at the front of its buffer.
use reiny.Prelude.{
  ℕ, ◌+◌, suc, ◌≤◌, ◌<◌, ◌≡◌, refl, ap, ◌∙◌, arith, Bool, Result, ok, List, [], ◌∷◌, ◌++◌,
  append-nil, append_assoc, Bytes, All, length, drop, to_le_bytes, lt→ltb, length-append,
  take-append_length, drop-append_add,
}
use reiny.Core.{schema_fingerprint_version}
use reiny.Wire.Types.{WireError}
use reiny.Wire.Table.{HelloEntry}
use reiny.Wire.EntryWriter.Laws.{IsShort, EntryFits, entry_bytes, Writes-entry}
use reiny.Wire.Writer.{Writer, Write, continue, ◌>>=◌, ◌>>◌, write_u8, write_bytes, write_str}
use reiny.Wire.Writer.Laws.{wrote, str_bytes, Writes, Writes-bytes, Writes-str, Writes-then}
use reiny.Wire.HelloWriter.{hello_flags, position, patch, write_entries, write_table, hello_write}

abbrev pub entries_bytes : List HelloEntry → Bytes
entries_bytes [] = []
entries_bytes (e ∷ rest) = entry_bytes e ++ entries_bytes rest

-- flags, fingerprint version, id
abbrev pub head_bytes : Bool → Bool → Bytes → Bytes
head_bytes ack bridge id =
    (hello_flags ack bridge ∷ []) ++ (to_le_bytes 2 schema_fingerprint_version ++ str_bytes id)

abbrev pub hello_bytes : Bool → Bool → Bytes → List HelloEntry → Bytes
hello_bytes ack bridge id entries =
    head_bytes ack bridge id ++ (length entries ∷ entries_bytes entries)

-- One write in front of what follows.
Writes-step :
    {B : Type 0} (m : Write (Unit {0})) (k : Write B) (b front out : Bytes)
    → Writes m b
    → length (front ++ b) ≤ length out
    → (m >> k) (wrote front out) ≡ k (wrote (front ++ b) out)
Writes-step m k b front out p h = rw (p front out h)

write_entries-wrote :
    (n : ℕ) (es : List HelloEntry) (front out : Bytes)
    → All EntryFits es
    → n + length es < 256
    → length (front ++ entries_bytes es) ≤ length out
    → write_entries n es (wrote front out)
      ≡ (ok (n + length es), wrote (front ++ entries_bytes es) out)
unfolding write_entries
write_entries-wrote n [] front out h small fits =
    let same : n + 0 ≡ n = omega arith in rw (append-nil, same)
write_entries-wrote n (e ∷ rest) front out (h, hs) small fits =
    rw (Writes-entry e h front out first, lt→ltb (n + 1) 256 (omega arith))
      (write_entries-wrote (n + 1) rest (front ++ entry_bytes e) out hs (omega arith)
          (rw regroup fits)
        ∙ (λ i. (ok (count i), wrote (regroup i) out)))
  where
    regroup :
        (front ++ entry_bytes e) ++ entries_bytes rest
        ≡ front ++ (entry_bytes e ++ entries_bytes rest)
    regroup = append_assoc front (entry_bytes e) (entries_bytes rest)

    count : n + 1 + length rest ≡ n + suc (length rest)
    count = omega arith

    first : length (front ++ entry_bytes e) ≤ length out
    first =
        omega
          (arith, ap length regroup, length-append (front ++ entry_bytes e) (entries_bytes rest))

-- The count goes into the byte that was left for it.
patch-wrote :
    (head body out : Bytes) (n : ℕ)
    → patch (length head) n (wrote (head ++ (0 ∷ body)) out)
      ≡ (ok tt, wrote (head ++ (n ∷ body)) out)
patch-wrote head body out n =
    let before : Bytes = 0 ∷ body in
    let after : Bytes = n ∷ body in
    let behind : Bytes = drop (length (head ++ after)) out in
    let width : length (head ++ before) ≡ length (head ++ after) =
      omega (arith, length-append head before, length-append head after) in
    rw (
      width,
      append_assoc head before behind,
      append_assoc head after behind,
      take-append_length head (before ++ behind) (length head) refl,
      drop-append_add head (before ++ behind) 1,
    )

Writes-head :
    (ack bridge : Bool) (id : Bytes)
    → IsShort id
    → Writes
        (write_u8 (hello_flags ack bridge)
          >> (write_bytes (to_le_bytes 2 schema_fingerprint_version) >> write_str id))
        (head_bytes ack bridge id)
Writes-head ack bridge id h =
    Writes-then (write_u8 (hello_flags ack bridge)) _ _ _ (Writes-bytes _) (
      Writes-then (write_bytes (to_le_bytes 2 schema_fingerprint_version)) _ _ _ (Writes-bytes _)
        (Writes-str id h))

-- For an identifier, strings and counts that fit their length bytes, and a buffer with room,
-- `hello_write` leaves the bytes of the Hello at the front of the buffer and the rest as it was, and
-- returns how many they are.
pub hello_write_lem :
    (out : Bytes) (ack bridge : Bool) (id : Bytes) (es : List HelloEntry)
    → IsShort id
    → All EntryFits es
    → length es < 256
    → length (hello_bytes ack bridge id es) ≤ length out
    → hello_write out ack bridge id es ≡ (
      ok (length (hello_bytes ack bridge id es)),
      hello_bytes ack bridge id es ++ drop (length (hello_bytes ack bridge id es)) out,
    )
unfolding hello_write
hello_write_lem out ack bridge id es short fit small room =
    ap (λ (w : Result WireError ℕ × Writer). (w.0, w.1.out)) run
  where
    head : Bytes
    head = head_bytes ack bridge id

    f : ℕ
    f = hello_flags ack bridge

    version : Bytes
    version = to_le_bytes 2 schema_fingerprint_version

    lengths : length head + 1 + length (entries_bytes es) ≤ length out
    lengths = omega (arith, length-append head (length es ∷ entries_bytes es))

    body : Write ℕ
    body = do
      count_at ← position
      write_u8 0
      count ← write_entries 0 es
      patch count_at count
      position

    slot : Bytes
    slot = head ++ (0 ∷ [])

    entries_room : length (slot ++ entries_bytes es) ≤ length out
    entries_room =
        omega (arith, lengths, length-append slot (entries_bytes es), length-append head (0 ∷ []))

    opened : write_table ack bridge id es (wrote [] out) ≡ body (wrote head out)
    opened =
        Writes-step (write_u8 f) _ (f ∷ []) [] out (Writes-bytes _) (omega (arith, lengths))
        ∙ Writes-step (write_bytes version) _ version (f ∷ []) out (Writes-bytes _)
            (omega (arith, lengths))
        ∙ Writes-step (write_str id) body (str_bytes id) ((f ∷ []) ++ version) out
            (Writes-str id short) (omega (arith, lengths))

    after_slot : Write ℕ
    after_slot = do count ← write_entries 0 es; patch (length head) count; position

    finish : ℕ → Write ℕ
    finish count = do patch (length head) count; position

    none_before : 0 + length es ≡ length es
    none_before = omega arith

    regroup : slot ++ entries_bytes es ≡ head ++ (0 ∷ entries_bytes es)
    regroup = append_assoc head (0 ∷ []) (entries_bytes es)

    filled :
        body (wrote head out)
        ≡ (ok (length (hello_bytes ack bridge id es)), wrote (hello_bytes ack bridge id es) out)
    filled =
        Writes-step (write_u8 0) after_slot (0 ∷ []) head out (Writes-bytes _)
          (omega (arith, lengths, length-append head (0 ∷ [])))
        ∙ rw (write_entries-wrote 0 es slot out fit (omega arith) entries_room) (
            (λ i. finish (none_before i) (wrote (regroup i) out))
            ∙ ap (λ (m : Result WireError (Unit {0}) × Writer). continue (λ _. position) m.0 m.1)
                (patch-wrote head (entries_bytes es) out (length es)))

    run :
        write_table ack bridge id es (wrote [] out)
        ≡ (ok (length (hello_bytes ack bridge id es)), wrote (hello_bytes ack bridge id es) out)
    run = opened ∙ filled
