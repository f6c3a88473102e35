-- ===== src/Name/RoundTrip.antt =====
-- `put_name` against `be_name` in a message that grows name by name.
use ddns.Prelude.{ℕ, ◌-◌, ◌<◌, ◌≡◌, ◌∙◌, arith}
use ddns.Prelude.{List, [], ◌∷◌, ◌++◌, append_assoc, All, length, length-append, inl, inr}
use ddns.Bytes.{ByteIo, IsByteIo, ok, be_bytes}
use ddns.Bytes.Standard.{standard, of_standard}
use ddns.Name.Defs.{
  Name, NameCompression, dot, join, suffixes_of, put_labels, put_name, be_name, name_eq,
}
use ddns.Name.Spells.{
  IsLabel, Spells, Spells-extend, root, label, pointer, be_name-Spells, be_name_root,
}
use ddns.Name.Table.{IsTable, IsTable-append}
use ddns.Name.Write.{write_labels, is_nil}
use ddns.Name.Text.{display, IsName, strip_dot-join, split_dot-join, labels_of_lem, join-ne-root}
use native.Mathlib.Nat.{le_refl}

length-Spells :
    {origin : List ℕ} {b : ℕ} {input rest : List ℕ} {labels : List Name}
    → Spells origin b input labels rest
    → length rest < length input
length-Spells root = omega arith
length-Spells (label {s = s} l hl d) = omega (arith, length-Spells d, length-append {0} l s)
length-Spells (pointer o below inside narrow d) = omega arith

-- What a call of `put_name` did: the bytes that it appended, the new table, and the name that a
-- reader finds in them.
pub record Put (io : ByteIo) (buf : List ℕ) (name : Name) (ctx : NameCompression) : Type 0 where
  pub bytes : List ℕ
  pub table : NameCompression
  pub result : put_name io buf name ctx ≡ (buf ++ bytes, table, length bytes)
  pub some_bytes : 0 < length bytes
  pub true_table : IsTable (buf ++ bytes) table
  pub reads :
      (after more : List ℕ)
      → be_name io (bytes ++ after) (buf ++ (bytes ++ more)) ≡ ok (after, name)

size_of : (buf bytes : List ℕ) → length (buf ++ bytes) - length buf ≡ length bytes
size_of buf bytes = omega (arith, length-append {0} buf bytes)

root-Put :
    (buf : List ℕ) (ctx : NameCompression) → IsTable buf ctx → Put standard buf (dot ∷ []) ctx
root-Put buf ctx h = record {
  bytes = 0 ∷ [];
  table = ctx;
  result = unfold put_name be_bytes name_eq in rw size_of;
  some_bytes = omega arith;
  true_table = IsTable-append ctx (0 ∷ []) h;
  reads = λ after more. be_name_root {b = 0} root;
}

-- The printer's work on a name with labels, up to the loop.
put_name_labels :
    (buf : List ℕ) (ctx : NameCompression) (l : Name) (ls : List Name)
    → All IsLabel (l ∷ ls)
    → put_name standard buf (join (l ∷ ls)) ctx ≡ (
        let (buf', ctx') = put_labels standard buf (l ∷ ls) (suffixes_of (l ∷ ls)) ctx in
        (buf', ctx', length buf' - length buf))
unfolding put_name
put_name_labels buf ctx l ls h =
    let (not_root, not_empty) = join-ne-root l ls h in
    simp
      (strip_dot-join l ls h, split_dot-join l ls h, labels_of_lem (l ∷ ls) h, not_root, not_empty)

-- A spelling with labels, as `be_name` reads it behind the buffer.
reads_back :
    (buf bytes : List ℕ) (spelling : List Name) (l : Name) (ls : List Name)
    → Spells (buf ++ bytes) (length buf) bytes spelling []
    → join spelling ≡ join (l ∷ ls)
    → is_nil spelling ≡ is_nil (l ∷ ls)
    → (after more : List ℕ)
    → be_name standard (bytes ++ after) (buf ++ (bytes ++ more)) ≡ ok (after, join (l ∷ ls))
reads_back buf bytes [] l ls d same shape after more = absurd (cc)
reads_back buf bytes (m ∷ ms) l ls d same shape after more =
    rw (← append_assoc buf bytes more) (be_name-Spells (Spells-extend after more d) ∙ rw same)

labelled-Put :
    (buf : List ℕ) (ctx : NameCompression) (l : Name) (ls : List Name)
    → All IsLabel (l ∷ ls)
    → IsTable buf ctx
    → Put standard buf (join (l ∷ ls)) ctx
labelled-Put buf ctx l ls h table =
    let w =
      write_labels (l ∷ ls) (length buf) buf ctx (le_refl _) h
        (λ s t e _. let entry = table s t e in (entry.inside, entry)) in
    record {
      bytes = w.bytes;
      table = w.table;
      result = put_name_labels buf ctx l ls h ∙ rw (w.grown, size_of buf w.bytes);
      some_bytes = omega (arith, length-Spells w.spelled);
      true_table = λ s t e. elim (w.entries s t e) [
        | inl old ↦ IsTable-append ctx w.bytes table s t old
        | inr new ↦ new
      ];
      reads = reads_back buf w.bytes w.spelling l ls w.spelled w.same w.shape;
    }

shown-Put :
    (buf : List ℕ) (ctx : NameCompression) (labels : List Name)
    → All IsLabel labels
    → IsTable buf ctx
    → Put standard buf (display labels) ctx
unfolding display
shown-Put buf ctx [] h table = root-Put buf ctx table
shown-Put buf ctx (l ∷ ls) h table = labelled-Put buf ctx l ls h table

pub name-Put :
    (buf : List ℕ) (name : Name) (ctx : NameCompression)
    → IsName name
    → IsTable buf ctx
    → Put standard buf name ctx
name-Put buf name ctx h table = rw h.shown (shown-Put buf ctx h.labels h.each table)

abbrev Statement : List ℕ → Name → NameCompression → ByteIo → Type 0
Statement buf name ctx io =
    (bytes : List ℕ) × (table : NameCompression) × (put_name io buf name ctx
      ≡ (buf ++ bytes, table, length bytes))
    × IsTable (buf ++ bytes) table
    × ((after more : List ℕ)
        → be_name io (bytes ++ after) (buf ++ (bytes ++ more)) ≡ ok (after, name))

-- Through every byte interface that keeps its laws: where each suffix in the compression table is
-- spelled in the buffer at its offset, `put_name` appends bytes for a name (labels of 1 to 63 bytes
-- of text between dots, or the root) and returns their number; the new table is true of the new
-- buffer in the same sense; and in the message that the buffer has become, whatever is appended to it
-- later and whatever follows the bytes in the slice that is parsed, `be_name` reads the name back from
-- them, pointers included, and leaves what follows.
pub be_name-put_name :
    (io : ByteIo)
    → IsByteIo io
    → (buf : List ℕ) (name : Name) (ctx : NameCompression) → IsName name
    → IsTable buf ctx
    → (bytes : List ℕ) × (table : NameCompression) × (put_name io buf name ctx
        ≡ (buf ++ bytes, table, length bytes))
      × IsTable (buf ++ bytes) table
      × ((after more : List ℕ)
          → be_name io (bytes ++ after) (buf ++ (bytes ++ more)) ≡ ok (after, name))
be_name-put_name io laws buf name ctx valid table =
    let p = name-Put buf name ctx valid table in
    of_standard (Statement buf name ctx) laws (p.bytes, p.table, p.result, p.true_table, p.reads)
