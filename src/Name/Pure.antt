-- ===== src/Name/Pure.antt =====
-- What `put_name` appends depends on the buffer by its length only.
use ddns.Prelude.{ℕ, ◌+◌, ◌-◌, ◌*◌, ◌%◌, ◌^◌, ◌≡◌, refl, arith, ◌∙◌}
use ddns.Prelude.{
  List, [], ◌∷◌, ◌++◌, none, some, append_assoc, length, length-append, leb, if◌then◌else◌, Bool,
  true, false,
}
use Prim.Native.Nat.{bit_and, bit_or}
use ddns.Prelude.{Option-cases, inl, inr, drop}
use ddns.Bytes.{be_bytes, length-be_bytes}
use ddns.Bytes.Standard.{standard}
use ddns.Prelude.{◌<◌, ap, sym, drop-append_length}
use ddns.Bytes.{ok}
use ddns.Name.Table.{IsTable}
use ddns.Name.Text.{IsName}
use ddns.Name.RoundTrip.{name-Put}
use ddns.Name.Defs.{be_name}
use ddns.Name.Defs.{
  Name, NameCompression, dot, name_eq, get_suffix_offset, remember_suffix, strip_dot, split_dot,
  labels_of, suffixes_of, put_labels, put_name,
}

-- The bytes of the labels and the new table, behind a buffer of `n` bytes.
unfoldable pub labels_bytes : ℕ → List Name → List Name → NameCompression → List ℕ × NameCompression
labels_bytes n (label ∷ labels) (suffix ∷ suffixes) ctx = elim (get_suffix_offset ctx suffix) [
  | some offset ↦ (be_bytes 2 (bit_or (3 * 2 ^ 14) (bit_and offset 0x3fff)), ctx)
  | none ↦
      let (bytes, table) =
        labels_bytes (n + 1 + length label) labels suffixes
          (if leb n 0x3fff then remember_suffix ctx suffix (n % 2 ^ 16) else ctx) in
      (be_bytes 1 (length label % 2 ^ 8) ++ (label ++ bytes), table)
]
labels_bytes n _ _ ctx = (be_bytes 1 0, ctx)

grown :
    (buf label : List ℕ) (x : ℕ)
    → length (buf ++ be_bytes 1 x ++ label) ≡ length buf + 1 + length label
grown buf label x = omega (
  arith,
  length-append (buf ++ be_bytes 1 x) label,
  length-append buf (be_bytes 1 x),
  length-be_bytes 1 x,
)

put_labels-bytes :
    (buf : List ℕ) (labels suffixes : List Name) (ctx : NameCompression)
    → put_labels standard buf labels suffixes ctx ≡ (
        let (bytes, table) = labels_bytes (length buf) labels suffixes ctx in (buf ++ bytes, table))
unfolding put_labels labels_bytes
put_labels-bytes buf (label ∷ labels) (suffix ∷ suffixes) ctx =
    elim (Option-cases (get_suffix_offset ctx suffix)) [
      | inl new ↦
          rw
            (
              put_labels,
              labels_bytes,
              new,
              put_labels-bytes (buf ++ be_bytes 1 (length label % 2 ^ 8) ++ label) labels suffixes
                  _,
              grown buf label (length label % 2 ^ 8),
            )
            (simp append_assoc)
      | inr (offset, old) ↦ rw (put_labels, labels_bytes, old)
    ]
put_labels-bytes buf [] suffixes ctx = refl
put_labels-bytes buf (label ∷ labels) [] ctx = refl

size_of : (buf bytes : List ℕ) → length (buf ++ bytes) - length buf ≡ length bytes
size_of buf bytes = omega (arith, length-append {0} buf bytes)

-- The last tests of the printer, and of the bytes, on the root, on an empty text and on labels.
abbrev written : List ℕ → NameCompression → List Name → Bool → Bool → List ℕ × NameCompression × ℕ
written buf ctx labels is_root is_empty =
    let root = buf ++ be_bytes 1 0 in
    let (buf', ctx') = put_labels standard buf labels (suffixes_of labels) ctx in
    if is_root
    then (root, ctx, length root - length buf)
    else if is_empty
    then (root, ctx, length root - length buf)
    else elim labels [
      | [] ↦ (root, ctx, length root - length buf)
      | label ∷ more ↦ (buf', ctx', length buf' - length buf)
    ]

abbrev pub chosen : ℕ → NameCompression → List Name → Bool → Bool → List ℕ × NameCompression
chosen n ctx labels is_root is_empty =
    let (bytes, table) = labels_bytes n labels (suffixes_of labels) ctx in
    if is_root
    then (be_bytes 1 0, ctx)
    else if is_empty
    then (be_bytes 1 0, ctx)
    else elim labels [ [] ↦ (be_bytes 1 0, ctx) | label ∷ more ↦ (bytes, table) ]

by_tests :
    (buf : List ℕ) (ctx : NameCompression) (labels : List Name) (is_root is_empty : Bool)
    → written buf ctx labels is_root is_empty ≡ (
        let (bytes, table) = chosen (length buf) ctx labels is_root is_empty in
        (buf ++ bytes, table, length bytes))
by_tests buf ctx labels true is_empty = rw (size_of buf (be_bytes 1 0))
by_tests buf ctx labels false true = rw (size_of buf (be_bytes 1 0))
by_tests buf ctx [] false false = rw (size_of buf (be_bytes 1 0))
by_tests buf ctx (label ∷ more) false false =
    rw (put_labels-bytes buf (label ∷ more) (suffixes_of (label ∷ more)) ctx, size_of)

-- The bytes of a name and the new table, behind a buffer of `n` bytes.
unfoldable pub name_bytes : ℕ → Name → NameCompression → List ℕ × NameCompression
name_bytes n name ctx =
    chosen n ctx (labels_of (split_dot (strip_dot name))) (name_eq name (dot ∷ []))
      (name_eq (strip_dot name) [])

pub put_name-bytes :
    (buf : List ℕ) (name : Name) (ctx : NameCompression)
    → put_name standard buf name ctx ≡ (
        let (bytes, table) = name_bytes (length buf) name ctx in
        (buf ++ bytes, table, length bytes))
unfolding put_name name_bytes
put_name-bytes buf name ctx =
    by_tests buf ctx (labels_of (split_dot (strip_dot name))) (name_eq name (dot ∷ []))
      (name_eq (strip_dot name) [])

cancel : (buf xs ys : List ℕ) → buf ++ xs ≡ buf ++ ys → xs ≡ ys
cancel buf xs ys e =
    sym (drop-append_length buf xs) ∙ ap (drop (length buf)) e ∙ drop-append_length buf ys

-- The bytes of a name are read back in the message, in a slice that anything may follow.
pub record NameReads (buf : List ℕ) (name : Name) (bytes : List ℕ) (table : NameCompression)
    : Type 0 where
  pub some_bytes : 0 < length bytes
  pub true_table : IsTable (buf ++ bytes) table
  pub reads :
      (after more : List ℕ)
      → be_name standard (bytes ++ after) (buf ++ (bytes ++ more)) ≡ ok (after, name)

pub name_bytes-NameReads :
    (buf : List ℕ) (name : Name) (ctx : NameCompression)
    → IsName name
    → IsTable buf ctx
    → NameReads buf name (name_bytes (length buf) name ctx).0 (name_bytes (length buf) name ctx).1
name_bytes-NameReads buf name ctx valid true_of =
    let p = name-Put buf name ctx valid true_of in
    let same = sym p.result ∙ put_name-bytes buf name ctx in
    let bytes : p.bytes ≡ (name_bytes (length buf) name ctx).0 =
      cancel buf _ _ (ap (λ r. r.0) same) in
    let table : p.table ≡ (name_bytes (length buf) name ctx).1 = ap (λ r. r.1) same in
    rw (← bytes, ← table)
      (record { some_bytes = p.some_bytes; true_table = p.true_table; reads = p.reads })
