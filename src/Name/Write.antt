-- ===== src/Name/Write.antt =====
-- What `put_name` appends spells the name, and the table stays true of the message.
use Prim.Native.Nat.{bit_and, bit_or}
use ddns.Prelude.{
  ℕ, ◌+◌, ◌*◌, ◌/◌, ◌%◌, ◌^◌, ◌≤◌, ◌<◌, ◌≡◌, refl, sym, ap, ◌∙◌, arith, Bool, true, false, ◌⊎◌, inl,
  inr,
}
use ddns.Prelude.{
  List, [], ◌∷◌, ◌++◌, append_assoc, none, some, length, length-append, drop-append_length, leb,
  if◌then◌else◌, Bool-cases, Option-cases, All,
}
use native.Mathlib.Nat.{le_refl}
use ddns.Bits.{bit_or_high, bit_and_mask}
use ddns.Bytes.{be_bytes}
use ddns.Bytes.Standard.{standard}
use ddns.Name.Defs.{
  Name, NameCompression, dot, join, get_suffix_offset, remember_suffix, suffixes_of, put_labels,
}
use ddns.Name.Spells.{IsLabel, Spells, Spells-mono, label, root, pointer}
use ddns.Name.Table.{IsEntry, IsEntry-append, Spells-grown, get-remember}

pub suffixes_of-join :
    (l : Name) (ls : List Name) → suffixes_of (l ∷ ls) ≡ join (l ∷ ls) ∷ suffixes_of ls
unfolding suffixes_of join
suffixes_of-join l [] = refl
suffixes_of-join l (m ∷ ms) = rw (suffixes_of-join m ms)

abbrev pub is_nil {ℓ} : {A : Type ℓ} → List A → Bool
is_nil [] = true
is_nil (x ∷ xs) = false

-- The lookups that the loop over `labels` can make, in a message that held `start` bytes when the
-- name began: what they find was written before.
abbrev pub Earlier : ℕ → List ℕ → NameCompression → List Name → Type 0
Earlier start buf ctx labels =
    (s : Name) (t : ℕ)
    → get_suffix_offset ctx s ≡ some t
    → length s ≤ length (join labels)
    → (t < start) × IsEntry buf s t

-- What the loop does: it appends bytes that spell `labels`, or the same text by other labels where a
-- pointer ends it, and every new entry of the table is one of this name's.
pub record Written (start : ℕ) (buf : List ℕ) (ctx : NameCompression) (labels : List Name)
    (out : List ℕ × NameCompression) : Type 0 where
  pub bytes : List ℕ
  pub table : NameCompression
  pub spelling : List Name
  pub grown : out ≡ (buf ++ bytes, table)
  pub spelled : Spells (buf ++ bytes) start bytes spelling []
  pub same : join spelling ≡ join labels
  pub shape : is_nil spelling ≡ is_nil labels
  pub entries :
      (s : Name) (t : ℕ)
      → get_suffix_offset table s ≡ some t
      → (get_suffix_offset ctx s ≡ some t) ⊎ IsEntry (buf ++ bytes) s t

end_byte :
    (buf : List ℕ) (start : ℕ) (ctx : NameCompression)
    → Written start buf ctx [] (put_labels standard buf [] [] ctx)
unfolding put_labels be_bytes
end_byte buf start ctx = record {
  bytes = 0 ∷ [];
  table = ctx;
  spelling = [];
  grown = refl;
  spelled = root;
  same = refl;
  shape = refl;
  entries = λ s t e. inl e;
}

pointer_bytes :
    (o : ℕ)
    → o < 2 ^ 14
    → be_bytes 2 (bit_or (3 * 2 ^ 14) (bit_and o 0x3fff)) ≡ (192 + o / 256) ∷ (o % 256) ∷ []
unfolding be_bytes
pointer_bytes o h =
    let offset : bit_and o 0x3fff ≡ o = omega (arith, bit_and_mask 14 o) in
    let joined : bit_or (3 * 2 ^ 14) (bit_and o 0x3fff) ≡ 3 * 2 ^ 14 + o =
      rw offset (bit_or_high 14 3 o h) in
    rw joined (ground arith)

label_bytes :
    (buf l : List ℕ)
    → length l ≤ 63
    → (buf ++ be_bytes 1 (length l % 2 ^ 8)) ++ l ≡ buf ++ (length l ∷ l)
unfolding be_bytes
label_bytes buf l h =
    let size : length l % 256 % 256 ≡ length l = omega arith in rw (append_assoc, size)

module _ (buf : List ℕ) (l : Name) (ls : List Name) (s : Name) (ss : List Name)
    (ctx : NameCompression) where
  put_labels_hit :
      (t : ℕ)
      → get_suffix_offset ctx s ≡ some t
      → put_labels standard buf (l ∷ ls) (s ∷ ss) ctx
        ≡ (buf ++ be_bytes 2 (bit_or (3 * 2 ^ 14) (bit_and t 0x3fff)), ctx)
  unfolding put_labels
  put_labels_hit t hit = rw (hit, put_labels)

  put_labels_miss :
      get_suffix_offset ctx s ≡ none
      → put_labels standard buf (l ∷ ls) (s ∷ ss) ctx
        ≡ put_labels standard
            ((buf ++ be_bytes 1 (length l % 2 ^ 8)) ++ l)
            ls
            ss
            (if leb (length buf) 0x3fff then remember_suffix ctx s (length buf % 2 ^ 16) else ctx)
  unfolding put_labels
  put_labels_miss miss = rw (miss, put_labels)

pointer_hit :
    (start : ℕ) (buf : List ℕ) (ctx : NameCompression) (l : Name) (ls suffixes : List Name) (t : ℕ)
    → get_suffix_offset ctx (join (l ∷ ls)) ≡ some t
    → t < start
    → IsEntry buf (join (l ∷ ls)) t
    → Written start buf ctx
        (l ∷ ls)
        (put_labels standard buf (l ∷ ls) (join (l ∷ ls) ∷ suffixes) ctx)
pointer_hit start buf ctx l ls suffixes t hit before e =
    let later = IsEntry-append ((192 + t / 256) ∷ (t % 256) ∷ []) e in
    record {
      bytes = (192 + t / 256) ∷ (t % 256) ∷ [];
      table = ctx;
      spelling = e.first ∷ e.others;
      grown =
          put_labels_hit buf l ls (join (l ∷ ls)) suffixes ctx t hit
          ∙ rw (pointer_bytes t e.narrow);
      spelled =
          pointer {end = e.rest ++ _} t before later.inside e.narrow
            (Spells-grown buf t _ e.inside e.spelled);
      same = sym e.key;
      shape = refl;
      entries = λ s t h. inl h;
    }

length-join_lt :
    (l : Name) (ls : List Name) → 0 < length l → length (join ls) < length (join (l ∷ ls))
unfolding join
length-join_lt l [] h = omega arith
length-join_lt l (m ∷ ms) h = omega (arith, length-append {0} l (dot ∷ join (m ∷ ms)))

join_congr :
    (l : Name) (xs ys : List Name)
    → is_nil xs ≡ is_nil ys
    → join xs ≡ join ys
    → join (l ∷ xs) ≡ join (l ∷ ys)
unfolding join
join_congr l [] [] e h = refl
join_congr l [] (y ∷ ys) e h = absurd (cc)
join_congr l (x ∷ xs) [] e h = absurd (cc)
join_congr l (x ∷ xs) (y ∷ ys) e h = rw h

-- The table after one label: what it held, and that label's suffix if the message is not too long.
abbrev next_table : List ℕ → Name → NameCompression → NameCompression
next_table buf s ctx =
    if leb (length buf) 0x3fff then remember_suffix ctx s (length buf % 2 ^ 16) else ctx

next_entries :
    (buf : List ℕ) (s : Name) (ctx : NameCompression)
    → get_suffix_offset ctx s ≡ none
    → (k : Name) (t : ℕ) → get_suffix_offset (next_table buf s ctx) k ≡ some t
    → ((s ≡ k) × (t ≡ length buf) × (t < 2 ^ 14)) ⊎ (get_suffix_offset ctx k ≡ some t)
next_entries buf s ctx miss k t = elim (Bool-cases (leb (length buf) 0x3fff)) [
  | inl small ↦ rw small (λ h. elim (get-remember ctx s k (length buf % 2 ^ 16) t miss h) [
    | inl (same, e) ↦ inl (same, ground (arith, e), ground (arith, e))
    | inr old ↦ inr old
  ])
  | inr large ↦ rw large (λ h. inr h)
]

new-IsEntry :
    (buf bytes : List ℕ) (start : ℕ) (l : Name) (others : List Name) (s : Name) (t : ℕ)
    → start ≤ length buf
    → Spells (buf ++ bytes) start bytes (l ∷ others) []
    → t ≡ length buf
    → t < 2 ^ 14
    → s ≡ join (l ∷ others)
    → 0 < length bytes
    → IsEntry (buf ++ bytes) s t
new-IsEntry buf bytes start l others s t hb here place narrow key filled = record {
  inside = omega (arith, length-append {0} buf bytes);
  narrow = narrow;
  first = l;
  others = others;
  rest = [];
  key = key;
  spelled = rw (place, drop-append_length buf bytes) (Spells-mono hb here);
}

label-Written :
    (start : ℕ) (buf : List ℕ) (ctx : NameCompression) (l : Name) (ls : List Name)
    (out : List ℕ × NameCompression)
    → start ≤ length buf
    → IsLabel l
    → get_suffix_offset ctx (join (l ∷ ls)) ≡ none
    → Written start (buf ++ (length l ∷ l)) (next_table buf (join (l ∷ ls)) ctx) ls out
    → Written start buf ctx (l ∷ ls) out
label-Written start buf ctx l ls out hb hl miss w =
    let assoc : (buf ++ (length l ∷ l)) ++ w.bytes ≡ buf ++ (length l ∷ (l ++ w.bytes)) =
      append_assoc buf (length l ∷ l) w.bytes in
    let here = label l hl (rw assoc at w.spelled) in
    record {
      bytes = length l ∷ (l ++ w.bytes);
      table = w.table;
      spelling = l ∷ w.spelling;
      grown = w.grown ∙ rw assoc;
      spelled = here;
      same = join_congr l w.spelling ls w.shape w.same;
      shape = refl;
      entries = λ s t e. elim (w.entries s t e) [
        | inr new ↦ inr (rw assoc at new)
        | inl old ↦ elim (next_entries buf (join (l ∷ ls)) ctx miss s t old) [
          | inr older ↦ inl older
          | inl (key, place, narrow) ↦ inr (
              new-IsEntry buf (length l ∷ (l ++ w.bytes)) start l w.spelling s t hb here place
                narrow (sym key ∙ sym (join_congr l w.spelling ls w.shape w.same)) (omega arith))
        ]
      ];
    }

Earlier-next :
    (start : ℕ) (buf : List ℕ) (ctx : NameCompression) (l : Name) (ls : List Name)
    → IsLabel l
    → Earlier start buf ctx (l ∷ ls)
    → get_suffix_offset ctx (join (l ∷ ls)) ≡ none
    → Earlier start (buf ++ (length l ∷ l)) (next_table buf (join (l ∷ ls)) ctx) ls
Earlier-next start buf ctx l ls hl h miss s t e short =
    let less = length-join_lt l ls hl.filled in
    elim (next_entries buf (join (l ∷ ls)) ctx miss s t e) [
      | inl (key, _, _) ↦ absurd (omega (arith, ap length key))
      | inr old ↦
          let (before, entry) = h s t old (omega arith) in
          (before, IsEntry-append (length l ∷ l) entry)
    ]

pub write_labels :
    (labels : List Name) (start : ℕ) (buf : List ℕ) (ctx : NameCompression)
    → start ≤ length buf
    → All IsLabel labels
    → Earlier start buf ctx labels
    → Written start buf ctx labels (put_labels standard buf labels (suffixes_of labels) ctx)
unfolding suffixes_of
write_labels [] start buf ctx hb hl h = end_byte buf start ctx
write_labels (l ∷ ls) start buf ctx hb hl h =
    rw (suffixes_of-join l ls) (elim (Option-cases (get_suffix_offset ctx (join (l ∷ ls)))) [
      | inr (t, hit) ↦
          let (before, e) = h (join (l ∷ ls)) t hit (le_refl _) in
          pointer_hit start buf ctx l ls (suffixes_of ls) t hit before e
      | inl miss ↦
          let next = next_table buf (join (l ∷ ls)) ctx in
          rw
            (
              put_labels_miss buf l ls (join (l ∷ ls)) (suffixes_of ls) ctx miss,
              label_bytes buf l hl.0.short,
            )
            (label-Written start buf ctx l ls _ hb hl.0 miss (
              write_labels ls start (buf ++ (length l ∷ l)) next
                (omega (arith, length-append {0} buf (length l ∷ l))) hl.1
                (Earlier-next start buf ctx l ls hl.0 h miss)))
    ])
