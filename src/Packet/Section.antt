-- ===== src/Packet/Section.antt =====
-- One section of a message: what the printer's loop appends, item by item, and that `parse` reads it
-- back in the message.
use ddns.Prelude.{ℕ, suc, ◌+◌, ◌*◌, ◌≤◌, ◌≡◌, refl, arith, List, [], ◌∷◌, ◌++◌, All, subst}
use ddns.Prelude.{append_assoc, append-nil, length, length-append}
use ddns.Bytes.{IResult, ok}
use ddns.Name.{NameCompression}
use ddns.Name.Table.{IsTable}
use ddns.Packet.Defs.{parse}

abbrev pub Item : Type 0 → Type 0
Item T = ℕ → T → NameCompression → List ℕ × NameCompression

unfoldable pub section_bytes :
    {T : Type 0} → Item T → ℕ → List T → NameCompression → List ℕ × NameCompression
section_bytes item n [] ctx = ([], ctx)
section_bytes item n (x ∷ xs) ctx =
    let (bytes, table) = item n x ctx in
    let (rest, last) = section_bytes item (n + length bytes) xs table in (bytes ++ rest, last)

more_items : (n k : ℕ) → suc n * k ≡ k + n * k
more_items n k = grind arith

-- What is proved of an item's bytes: a least length, that the table stays true, and that the parser
-- reads the item.
pub record Reads {T : Type 0} (parser : List ℕ → List ℕ → IResult T) (item : Item T) (least : ℕ)
    (x : T) : Type 0 where
  pub size :
      (buf : List ℕ) (ctx : NameCompression)
      → IsTable buf ctx
      → least ≤ length (item (length buf) x ctx).0
  pub true_table :
      (buf : List ℕ) (ctx : NameCompression)
      → IsTable buf ctx
      → IsTable (buf ++ (item (length buf) x ctx).0) (item (length buf) x ctx).1
  pub reads :
      (buf : List ℕ) (ctx : NameCompression)
      → IsTable buf ctx
      → (after more : List ℕ)
      → (let bytes = (item (length buf) x ctx).0 in
          parser (bytes ++ after) (buf ++ (bytes ++ more)) ≡ ok (after, x))

module _ {T : Type 0} (parser : List ℕ → List ℕ → IResult T) (item : Item T) (least : ℕ) where
  parse_step :
      (n : ℕ) {input origin rest after : List ℕ} {x : T} {xs : List T}
      → parser input origin ≡ ok (rest, x)
      → parse parser n rest origin ≡ (after, xs)
      → parse parser (suc n) input origin ≡ (after, x ∷ xs)
  unfolding parse
  parse_step n one others = rw (parse, one, others)

  parse_item :
      (buf bytes rest after more : List ℕ) (n : ℕ) (x : T) (xs : List T)
      → parser (bytes ++ (rest ++ after)) (buf ++ (bytes ++ (rest ++ more))) ≡ ok (rest ++ after, x)
      → parse parser n (rest ++ after) (buf ++ bytes ++ (rest ++ more)) ≡ (after, xs)
      → parse parser (suc n) ((bytes ++ rest) ++ after) (buf ++ ((bytes ++ rest) ++ more))
        ≡ (after, x ∷ xs)
  parse_item buf bytes rest after more n x xs one others =
      simp append_assoc (parse_step n one (simp append_assoc at others))

  -- The same of a whole section, in a buffer of a length that is known otherwise.
  pub record SectionReads (buf : List ℕ) (xs : List T) (written : List ℕ × NameCompression)
      : Type 0 where
    pub size : length xs * least ≤ length written.0
    pub true_table : IsTable (buf ++ written.0) written.1
    pub reads :
        (after more : List ℕ)
        → parse parser (length xs) (written.0 ++ after) (buf ++ (written.0 ++ more)) ≡ (after, xs)

  pub section_bytes-SectionReads :
      (buf : List ℕ) (xs : List T) (ctx : NameCompression)
      → All (Reads parser item least) xs
      → IsTable buf ctx
      → SectionReads buf xs (section_bytes item (length buf) xs ctx)
  unfolding section_bytes parse
  section_bytes-SectionReads buf [] ctx h table = record {
    size = omega arith;
    true_table = rw (append-nil buf) table;
    reads = λ after more. refl;
  }
  section_bytes-SectionReads buf (x ∷ xs) ctx (h, hs) table =
      let bytes = (item (length buf) x ctx).0 in
      let ctx' = (item (length buf) x ctx).1 in
      let rest : SectionReads (buf ++ bytes) xs
          (section_bytes item (length buf + length bytes) xs ctx') =
        rw (← length-append buf bytes)
          (section_bytes-SectionReads (buf ++ bytes) xs ctx' hs (h.true_table buf ctx table)) in
      record {
        size = omega (
          arith,
          more_items (length xs) least,
          length-append bytes (section_bytes item (length buf + length bytes) xs ctx').0,
          h.size buf ctx table,
          rest.size,
        );
        true_table =
            let true_of = rest.true_table in
            subst (λ b. IsTable b (section_bytes item (length buf + length bytes) xs ctx').1)
              (append_assoc buf bytes (section_bytes item (length buf + length bytes) xs ctx').0)
              true_of;
        reads = λ after more.
            parse_item buf bytes _ after more (length xs) x xs (h.reads buf ctx table _ _)
              (rest.reads after more);
      }
