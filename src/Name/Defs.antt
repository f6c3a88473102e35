-- ===== src/Name/Defs.antt =====
-- Names as text, the parser with its compression pointers, and the printer with the table of the
-- suffixes that are already in the message.
use Prim.Native.Nat.{bit_and, bit_or}
use ddns.Prelude.{ℕ, zero, suc, ◌+◌, ◌-◌, ◌*◌, ◌%◌, ◌^◌, Bool, true, false, ◌&&◌, ◌||◌}
use ddns.Prelude.{
  List, [], ◌∷◌, ◌++◌, Option, none, some, length, drop, ltb, leb, ◌==◌, if◌then◌else◌,
}
use ddns.Bytes.{ByteIo, IResult, ok, err, error, verify, stuck, ◌>>=◌}
use ddns.Utf8.{from_utf8_lossy}

-- The bytes of a `String`.
abbrev pub Name : Type 0
Name = List ℕ

abbrev pub dot : ℕ
dot = b'.'

-- `labels.join(".")`
unfoldable pub join : List Name → Name
join [] = []
join (label ∷ []) = label
join (label ∷ next ∷ labels) = label ++ dot ∷ join (next ∷ labels)

abbrev pub contains : List ℕ → ℕ → Bool
contains [] a = false
contains (x ∷ xs) a = x == a || contains xs a

unfoldable pub name_eq : Name → Name → Bool
name_eq [] [] = true
name_eq (a ∷ as') (b ∷ bs) = a == b && name_eq as' bs
name_eq _ _ = false

-- Fuel for every offset of the message once, with a round for each byte behind it.
abbrev pub labels_fuel : List ℕ → List ℕ → ℕ
labels_fuel input origin = length origin * (length origin + 2) + length input + 1

module _ (io : ByteIo) where
  -- A pointer restarts at `origin` with the offset on the list of those being followed; the other
  -- rounds of the loop go on behind a label. Both take fuel.
  unfoldable pub be_name_labels : ℕ → List ℕ → List ℕ → List ℕ → IResult (List Name)
  be_name_labels zero input origin visited = err stuck
  be_name_labels (suc fuel) input origin visited = do
    (remain, len) ← io.be_u8 input
    let follow = do
      (remain, offset_byte) ← io.be_u8 remain
      let offset = bit_or (bit_and len 0x3f * 2 ^ 8) offset_byte
      let jump = do
        (_, suffix) ← be_name_labels fuel (drop offset origin) origin (offset ∷ visited)
        ok (remain, suffix)
      if leb (length origin) offset || contains visited offset
          then err (error input verify)
          else jump
    let next = do
      (remain, label_bytes) ← io.take len remain
      (remain, labels) ← be_name_labels fuel remain origin visited
      ok (remain, from_utf8_lossy label_bytes ∷ labels)
    if len == 0
        then ok (remain, [])
        else if bit_and len 0xc0 == 0xc0
        then follow
        else if ltb 63 len
        then err (error input verify)
        else next

  unfoldable pub be_name_inner : List ℕ → List ℕ → List ℕ → IResult Name
  be_name_inner input origin visited = do
    (remain, labels) ← be_name_labels (labels_fuel input origin) input origin visited
    elim labels [ [] ↦ ok (remain, dot ∷ []) | label ∷ more ↦ ok (remain, join (label ∷ more)) ]

  unfoldable pub be_name : List ℕ → List ℕ → IResult Name
  unfolding be_name_inner
  be_name input origin = be_name_inner input origin []

-- The offset of each suffix that the message holds; a suffix is never recorded twice.
abbrev pub NameCompression : Type 0
NameCompression = List (Name × ℕ)

unfoldable pub get_suffix_offset : NameCompression → Name → Option ℕ
get_suffix_offset [] suffix = none
get_suffix_offset ((key, offset) ∷ ctx) suffix =
    if name_eq key suffix then some offset else get_suffix_offset ctx suffix

unfoldable pub remember_suffix : NameCompression → Name → ℕ → NameCompression
remember_suffix ctx suffix offset = elim (get_suffix_offset ctx suffix) [
  | some _ ↦ ctx
  | none ↦ (suffix, offset) ∷ ctx
]

-- `strip_suffix('.')`, with the text itself if it ends otherwise.
unfoldable pub strip_dot : Name → Name
strip_dot [] = []
strip_dot (c ∷ []) = if c == dot then [] else c ∷ []
strip_dot (c ∷ d ∷ cs) = c ∷ strip_dot (d ∷ cs)

-- `split('.')`: a text has at least one part.
unfoldable pub split_dot : Name → List Name
split_dot [] = [] ∷ []
split_dot (c ∷ cs) =
    let parts = split_dot cs in
    if c == dot
    then [] ∷ parts
    else elim parts [ [] ↦ (c ∷ []) ∷ [] | part ∷ more ↦ (c ∷ part) ∷ more ]

-- The parts that are not empty; an empty one in the middle is logged and left out too.
unfoldable pub labels_of : List Name → List Name
labels_of [] = []
labels_of ([] ∷ parts) = labels_of parts
labels_of ((c ∷ part) ∷ parts) = (c ∷ part) ∷ labels_of parts

-- For each label the text from there to the end.
unfoldable pub suffixes_of : List Name → List Name
suffixes_of [] = []
suffixes_of (label ∷ labels) =
    let suffixes = suffixes_of labels in
    elim suffixes [ [] ↦ label ∷ [] | current ∷ more ↦ (label ++ dot ∷ current) ∷ current ∷ more ]

module _ (io : ByteIo) where
  -- The loop over the labels, each with its suffix.
  unfoldable pub put_labels :
      List ℕ → List Name → List Name → NameCompression → List ℕ × NameCompression
  put_labels buf (label ∷ labels) (suffix ∷ suffixes) ctx = elim (get_suffix_offset ctx suffix) [
    | some offset ↦ (io.put_u16 buf (bit_or (3 * 2 ^ 14) (bit_and offset 0x3fff)), ctx)
    | none ↦
        put_labels (io.put_slice (io.put_u8 buf (length label % 2 ^ 8)) label) labels suffixes (
          if leb (length buf) 0x3fff then remember_suffix ctx suffix (length buf % 2 ^ 16) else ctx)
  ]
  put_labels buf _ _ ctx = (io.put_u8 buf 0, ctx)

  -- The buffer and the table after the name, and the number of bytes written.
  unfoldable pub put_name : List ℕ → Name → NameCompression → List ℕ × NameCompression × ℕ
  put_name buf name ctx =
      let root = io.put_u8 buf 0 in
      let trimmed = strip_dot name in
      let labels = labels_of (split_dot trimmed) in
      let (buf', ctx') = put_labels buf labels (suffixes_of labels) ctx in
      if name_eq name (dot ∷ [])
      then (root, ctx, length root - length buf)
      else if name_eq trimmed []
      then (root, ctx, length root - length buf)
      else elim labels [
        | [] ↦ (root, ctx, length root - length buf)
        | label ∷ more ↦ (buf', ctx', length buf' - length buf)
      ]
