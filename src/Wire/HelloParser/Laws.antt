-- ===== src/Wire/HelloParser/Laws.antt =====
-- `hello_parse` on what `hello_write` wrote: each branch.
use reiny.Prelude.{
  ℕ, ◌+◌, ◌≡◌, refl, sym, ap, ◌∙◌, arith, inl, inr, Bool, true, false, Bool-cases, ◌||◌, ◌&&◌, not,
  Result, ok, refuse, ◌>>◌, List, [], ◌∷◌, ◌++◌, append-nil, append_assoc, Bytes, All, length, drop,
  map, bit_and, any_after, to_le_bytes, length-append, take-append_length, drop-append_add, ◌==◌,
  ==_iff, bytes_eq_refl,
}
use reiny.Core.{schema_fingerprint_version}
use reiny.Wire.Types.{WireError, malformed, hello_ack, hello_bridge}
use reiny.Wire.Text.{valid_namespace}
use reiny.Wire.Table.{HelloEntry}
use reiny.Wire.Reader.{Reader}
use reiny.Wire.Reader.Laws.{Ahead, Ahead-skip, skip, Reads-u8, Reads-bytes, Reads-str}
use reiny.Wire.Writer.Laws.{str_bytes}
use reiny.Wire.EntryWriter.Laws.{entry_bytes}
use reiny.Wire.EntryReader.Laws.{IsText, IsEntry, received, Reads-entry}
use reiny.Wire.HelloWriter.{hello_flags}
use reiny.Wire.HelloWriter.Laws.{head_bytes, entries_bytes, hello_bytes}
use reiny.Wire.HelloParser.{
  Hello, read_entries, hello_entries, entry_refused, check_entries, hash_refused, hello_addresses,
  has_flag, parse_head, hello_parse,
}

-- The Hello that stands for such bytes.
abbrev pub expected : Bool → Bool → Bytes → List HelloEntry → Hello
expected ack bridge id es = record {
  ack = ack;
  bridge = bridge;
  id = id;
  count = length es;
  entries = entries_bytes es;
}

read_entries-entries_bytes :
    (es : List HelloEntry) (r : Reader) (rest : Bytes)
    → All IsEntry es
    → Ahead r (entries_bytes es ++ rest)
    → read_entries (length es) r ≡ map received es
unfolding read_entries
read_entries-entries_bytes [] r rest h a = refl
read_entries-entries_bytes (e ∷ es) r rest (h, hs) (ahead, inside) =
    rw (Reads-entry e h r (entries_bytes es ++ rest) a, read_entries)
      (ap (λ (t : List HelloEntry). received e ∷ t)
        (read_entries-entries_bytes es (skip (length (entry_bytes e)) r) rest hs
          (Ahead-skip r (entry_bytes e) (entries_bytes es ++ rest) a)))
  where
    a : Ahead r (entry_bytes e ++ (entries_bytes es ++ rest))
    a = (ahead ∙ append_assoc (entry_bytes e) (entries_bytes es) rest, inside)

-- The table of the Hello that was written iterates as its entries, as they are received.
pub hello_entries-expected :
    (ack bridge : Bool) (id : Bytes) (es : List HelloEntry)
    → All IsEntry es
    → hello_entries (expected ack bridge id es) ≡ map received es
unfolding hello_entries
hello_entries-expected ack bridge id es h =
    read_entries-entries_bytes es _ [] h (sym (append-nil (entries_bytes es)), omega arith)

-- The loop over the entries accepts them all, or refuses the table.
check_entries-entries_bytes :
    (hello : Hello) (before : List HelloEntry) (es : List HelloEntry) (r : Reader)
    → All IsEntry es
    → hello_entries hello ≡ before ++ map received es
    → Ahead r (entries_bytes es)
    → check_entries hello (length es) (length before) r ≡ (
        refuse (any_after (entry_refused hello.id) before (map received es)) malformed
        >> ok (skip (length (entries_bytes es)) r))
unfolding check_entries
check_entries-entries_bytes hello before [] r h table a =
    ap (λ (n : ℕ). ok (record r { pos = n })) (omega arith)
check_entries-entries_bytes hello before (e ∷ es) r (h, hs) table a =
    rw
      (
        Reads-entry e h r (entries_bytes es) a,
        table,
        take-append_length before (received e ∷ map received es) (length before) refl,
      )
      (elim (Bool-cases (entry_refused hello.id before (received e))) [
        | inl bad ↦ rw bad
        | inr good ↦ rw good (
            (λ i. check_entries hello (length es) (index i) next)
            ∙ check_entries-entries_bytes hello before' es next hs
                (table ∙ sym (append_assoc before (received e ∷ []) (map received es)))
                (Ahead-skip r (entry_bytes e) (entries_bytes es) a)
            ∙ (λ i. verdict >> ok (record r { pos = width i })))
      ])
  where
    next : Reader
    next = skip (length (entry_bytes e)) r

    before' : List HelloEntry
    before' = before ++ (received e ∷ [])

    index : length before + 1 ≡ length before'
    index = sym (length-append before (received e ∷ []))

    width :
        r.pos + length (entry_bytes e) + length (entries_bytes es)
        ≡ r.pos + length (entry_bytes e ++ entries_bytes es)
    width = omega (arith, length-append (entry_bytes e) (entries_bytes es))

    verdict : Result WireError (Unit {0})
    verdict = refuse (any_after (entry_refused hello.id) before' (map received es)) malformed

flags_mask : (ack bridge : Bool) → (bit_and (hello_flags ack bridge) 252 == 0) ≡ true
flags_mask true true = refl
flags_mask true false = refl
flags_mask false true = refl
flags_mask false false = refl

flags_ack : (ack bridge : Bool) → has_flag (hello_flags ack bridge) hello_ack ≡ ack
flags_ack true true = refl
flags_ack true false = refl
flags_ack false true = refl
flags_ack false false = refl

flags_bridge : (ack bridge : Bool) → has_flag (hello_flags ack bridge) hello_bridge ≡ bridge
flags_bridge true true = refl
flags_bridge true false = refl
flags_bridge false true = refl
flags_bridge false false = refl

module _ (ack bridge : Bool) (id : Bytes) (es : List HelloEntry) (text : IsText id)
    (valid : valid_namespace id ≡ true) where
  parse_head-hello_bytes :
      parse_head (hello_bytes ack bridge id es)
      ≡ ok (
        expected ack bridge id es,
        record { buf = hello_bytes ack bridge id es; pos = length (head_bytes ack bridge id) + 1 },
      )
  unfolding parse_head
  parse_head-hello_bytes =
      rw
        (
          Reads-u8 f r0 after_flags a0,
          flags_mask ack bridge,
          Reads-bytes version 2 refl r1 after_version a1,
          bytes_eq_refl version,
          Reads-str id text r2 after_id a2,
          valid,
          Reads-u8 (length es) r3 table a3,
          flags_ack ack bridge,
          flags_bridge ack bridge,
        )
        (λ i. ok (
          record { ack = ack; bridge = bridge; id = id; count = length es; entries = behind i },
          record r0 { pos = width i },
        ))
    where
      f : ℕ
      f = hello_flags ack bridge

      version : Bytes
      version = to_le_bytes 2 schema_fingerprint_version

      table : Bytes
      table = entries_bytes es

      after_id : Bytes
      after_id = (length es ∷ []) ++ table

      after_version : Bytes
      after_version = str_bytes id ++ after_id

      after_flags : Bytes
      after_flags = version ++ after_version

      r0 : Reader
      r0 = record { buf = hello_bytes ack bridge id es; pos = 0 }

      r1 : Reader
      r1 = skip 1 r0

      r2 : Reader
      r2 = skip 2 r1

      r3 : Reader
      r3 = skip (length (str_bytes id)) r2

      a0 : Ahead r0 ((f ∷ []) ++ after_flags)
      a0 = (refl, omega arith)

      a1 : Ahead r1 (version ++ after_version)
      a1 = Ahead-skip r0 (f ∷ []) after_flags a0

      a2 : Ahead r2 (str_bytes id ++ after_id)
      a2 = Ahead-skip r1 version after_version a1

      a3 : Ahead r3 ((length es ∷ []) ++ table)
      a3 = Ahead-skip r2 (str_bytes id) after_id a2

      behind : drop (r3.pos + 1) r0.buf ≡ table
      behind = (Ahead-skip r3 (length es ∷ []) table a3).0

      width : r3.pos + 1 ≡ length (head_bytes ack bridge id) + 1
      width = omega arith

  -- Whether `hello_parse` takes exception to the table that was written.
  abbrev pub table_refused : Bool
  table_refused =
      (bridge && not (length es == 0))
      || any_after (entry_refused id) [] (map received es)
      || any_after hash_refused [] (hello_addresses (expected ack bridge id es))

  -- The bytes of a Hello are read back as that Hello, or refused.
  pub hello_parse_written :
      All IsEntry es
      → hello_parse (hello_bytes ack bridge id es)
        ≡ (refuse table_refused malformed >> ok (expected ack bridge id es))
  unfolding hello_parse
  hello_parse_written h =
      rw parse_head-hello_bytes (elim (Bool-cases (bridge && not (length es == 0))) [
        | inl bad ↦ rw bad
        | inr good ↦
            rw (good, loop)
              (elim (Bool-cases (any_after (entry_refused id) [] (map received es))) [
                | inl bad ↦ rw bad
                | inr fine ↦ rw (fine, at_end)
              ])
      ])
    where
      behind_head : Reader
      behind_head = record {
        buf = hello_bytes ack bridge id es;
        pos = length (head_bytes ack bridge id) + 1;
      }

      ahead : Ahead behind_head (entries_bytes es)
      ahead = (
        drop-append_add (head_bytes ack bridge id) (length es ∷ entries_bytes es) 1,
        omega (arith, length-append (head_bytes ack bridge id) (length es ∷ entries_bytes es)),
      )

      loop : check_entries (expected ack bridge id es) (length es) 0 behind_head ≡ (
          refuse (any_after (entry_refused id) [] (map received es)) malformed
          >> ok (skip (length (entries_bytes es)) behind_head))
      loop =
          check_entries-entries_bytes (expected ack bridge id es) [] es behind_head h
            (hello_entries-expected ack bridge id es h) ahead

      at_end :
          (length (head_bytes ack bridge id) + 1 + length (entries_bytes es)
            == length (hello_bytes ack bridge id es))
          ≡ true
      at_end =
          (==_iff _ _).1
            (omega (arith, length-append (head_bytes ack bridge id) (length es ∷ entries_bytes es)))
