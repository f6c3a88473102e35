-- ===== src/Record/RoundTrip.antt =====
-- What `put_record` appends, and that `be_record` reads the record back from it in the message.
use ddns.Prelude.{◌∙◌, ℕ, ◌+◌, ◌<◌, ◌≤◌, ◌^◌, ◌≡◌, subst, arith, false}
use ddns.Prelude.{List, ◌++◌, append_assoc, length, length-append, Option, some, ltb}
use ddns.Bytes.{ByteIo, IsByteIo, ok, be_bytes, length-be_bytes, read_be-be_bytes, read_take-append}
use ddns.Bytes.Standard.{standard, of_standard}
use ddns.Name.{NameCompression, be_name}
use ddns.Name.Text.{IsName}
use ddns.Name.Table.{IsTable, IsTable-append}
use ddns.Name.Pure.{name_bytes, put_name-bytes, NameReads, name_bytes-NameReads}
use ddns.Record.Defs.{ResourceRecord, be_known, be_record, put_sized, put_record}
use ddns.Record.Words.{type_word, class_of, type_back, class_back, record_of-words}
use ddns.Record.Sized.{put_sized-bytes}
use ddns.Record.Data.{IsRData, rdata_bytes}
use ddns.Record.DataReads.{RDataReads, rdata_bytes-RDataReads}

-- A record whose name can be written and whose data are of its type and fit.
pub record IsRecord (try_sequence : ℕ → Option ℕ) (r : ResourceRecord) : Type 0 where
  pub named : IsName r.name
  pub ttl_fits : r.ttl < 2 ^ 32
  pub rdata_fits : IsRData try_sequence r.typ r.rdata

-- The bytes of a record behind `n` bytes, and the new table.
unfoldable pub record_bytes : ℕ → ResourceRecord → NameCompression → List ℕ × NameCompression
record_bytes n r ctx =
    let (name, ctx) = name_bytes n r.name ctx in
    let (rdata, ctx) = rdata_bytes (n + length name + 8 + 2) r.rdata ctx in
    (
      name
          ++ (be_bytes 2 (type_word r)
              ++ (be_bytes 2 (class_of r)
                  ++ (be_bytes 4 r.ttl ++ (be_bytes 2 (length rdata) ++ rdata)))),
      ctx,
    )

-- The buffer up to the length of RDATA.
abbrev until_rdata : List ℕ → List ℕ → ResourceRecord → List ℕ
until_rdata buf name r =
    buf ++ name ++ be_bytes 2 (type_word r) ++ be_bytes 2 (class_of r) ++ be_bytes 4 r.ttl

until_rdata_size :
    (buf name : List ℕ) (r : ResourceRecord)
    → length (until_rdata buf name r) ≡ length buf + length name + 8
until_rdata_size buf name r = omega (
  arith,
  length-append (buf ++ name ++ be_bytes 2 (type_word r) ++ be_bytes 2 (class_of r))
      (be_bytes 4 r.ttl),
  length-append (buf ++ name ++ be_bytes 2 (type_word r)) (be_bytes 2 (class_of r)),
  length-append (buf ++ name) (be_bytes 2 (type_word r)),
  length-append buf name,
  length-be_bytes 2 (type_word r),
  length-be_bytes 2 (class_of r),
  length-be_bytes 4 r.ttl,
)

module _ {try_sequence : ℕ → Option ℕ} (buf : List ℕ) (r : ResourceRecord) (ctx : NameCompression)
    (valid : IsRecord try_sequence r) (table : IsTable buf ctx) where
  name_part : List ℕ × NameCompression
  name_part = name_bytes (length buf) r.name ctx

  rdata_part : List ℕ × NameCompression
  unfolding name_part
  rdata_part = rdata_bytes (length buf + length name_part.0 + 8 + 2) r.rdata name_part.1

  named : NameReads buf r.name name_part.0 name_part.1
  unfolding name_part
  named = name_bytes-NameReads buf r.name ctx valid.named table

  -- The data behind everything that is written before them, whatever their length is patched to.
  data_reads :
      (v : ℕ)
      → RDataReads try_sequence
          (until_rdata buf name_part.0 r ++ be_bytes 2 v)
          r.typ
          r.rdata
          rdata_part
  unfolding rdata_part
  data_reads v =
      let start = until_rdata buf name_part.0 r ++ be_bytes 2 v in
      let true_of : IsTable start name_part.1 = IsTable-append name_part.1 (be_bytes 2 v) (
        IsTable-append name_part.1 (be_bytes 4 r.ttl) (
          IsTable-append name_part.1 (be_bytes 2 (class_of r))
            (IsTable-append name_part.1 (be_bytes 2 (type_word r)) named.true_table))) in
      let size : length start ≡ length buf + length name_part.0 + 8 + 2 = omega (
        arith,
        length-append (until_rdata buf name_part.0 r) (be_bytes 2 v),
        until_rdata_size buf name_part.0 r,
        length-be_bytes 2 v,
      ) in
      subst (λ k. RDataReads try_sequence start r.typ r.rdata (rdata_bytes k r.rdata name_part.1))
        size (rdata_bytes-RDataReads start name_part.1 true_of r.typ r.rdata valid.rdata_fits)

  sized :
      put_sized standard (until_rdata buf name_part.0 r) r.rdata name_part.1
      ≡ some (
        until_rdata buf name_part.0 r ++ (be_bytes 2 (length rdata_part.0) ++ rdata_part.0),
        rdata_part.1,
      )
  unfolding rdata_part
  sized =
      let size = until_rdata_size buf name_part.0 r in
      let short : length
            (rdata_bytes (length (until_rdata buf name_part.0 r) + 2) r.rdata name_part.1).0
          < 2 ^ 16 =
        rw size (data_reads 0).short in
      put_sized-bytes (until_rdata buf name_part.0 r) r.typ r.rdata name_part.1 valid.rdata_fits
        short
      ∙ rw size

  pub put_record-bytes :
      put_record standard buf r ctx
      ≡ (let (bytes, table) = record_bytes (length buf) r ctx in some (buf ++ bytes, table))
  unfolding record_bytes put_record name_part rdata_part
  put_record-bytes = rw (put_record, put_name-bytes buf r.name ctx) (sized ∙ simp append_assoc)

  known_reads :
      (after more : List ℕ)
      → (let rdata = rdata_part.0 in
          let origin =
            until_rdata buf name_part.0 r ++ be_bytes 2 (length rdata) ++ (rdata ++ more) in
          be_known standard try_sequence
            (rdata ++ after)
            origin
            r.name
            r.typ
            (class_of r)
            r.ttl
            (length rdata)
          ≡ ok (after, r))
  unfolding be_known
  known_reads after more =
      let rdata = rdata_part.0 in
      let enough : ltb (length (rdata ++ after)) (length rdata) ≡ false =
        ground (arith, length-append rdata after) in
      rw (
        be_known,
        enough,
        read_take-append rdata after,
        (data_reads (length rdata)).reads more,
        record_of-words r after (length rdata),
      )

  -- The parser in any message in which the name and the data are read.
  record_reads :
      (after origin : List ℕ)
      → ((rest : List ℕ) → be_name standard (name_part.0 ++ rest) origin ≡ ok (rest, r.name))
      → be_known standard try_sequence
          (rdata_part.0 ++ after)
          origin
          r.name
          r.typ
          (class_of r)
          r.ttl
          (length rdata_part.0)
        ≡ ok (after, r)
      → be_record standard try_sequence ((record_bytes (length buf) r ctx).0 ++ after) origin
        ≡ ok (after, r)
  unfolding record_bytes be_record rdata_part name_part
  record_reads after origin name_reads known =
      let (_, _, class_fits) = class_back r.multicast_unique r.cls in
      simp append_assoc (
        rw
          (
            name_reads _,
            read_be-be_bytes 2 (type_word r) _ (type_back r.typ).1,
            read_be-be_bytes 2 (class_of r) _ class_fits,
            read_be-be_bytes 4 r.ttl _ valid.ttl_fits,
            read_be-be_bytes 2 (length rdata_part.0) _ (data_reads 0).short,
            (type_back r.typ).0,
          )
          known)

  pub be_record-bytes :
      (after more : List ℕ)
      → (let (bytes, table) = record_bytes (length buf) r ctx in
          be_record standard try_sequence (bytes ++ after) (buf ++ (bytes ++ more)) ≡ ok (after, r))
  unfolding record_bytes rdata_part name_part
  be_record-bytes after more =
      record_reads after _ (λ rest. simp append_assoc (named.reads rest _))
        (let known = known_reads after more in simp append_assoc (simp append_assoc at known))

  pub record_bytes-IsTable :
      (let (bytes, table) = record_bytes (length buf) r ctx in IsTable (buf ++ bytes) table)
  unfolding record_bytes rdata_part name_part
  record_bytes-IsTable =
      let true_of = (data_reads (length rdata_part.0)).true_table in simp append_assoc at true_of

  pub record_bytes_size : 11 ≤ length (record_bytes (length buf) r ctx).0
  unfolding record_bytes name_part rdata_part
  record_bytes_size =
      let rdata = rdata_part.0 in
      let sized = be_bytes 2 (length rdata) ++ rdata in
      omega (
        arith,
        length-append name_part.0
            (be_bytes 2 (type_word r) ++ (be_bytes 2 (class_of r) ++ (be_bytes 4 r.ttl ++ sized))),
        length-append (be_bytes 2 (type_word r))
            (be_bytes 2 (class_of r) ++ (be_bytes 4 r.ttl ++ sized)),
        length-append (be_bytes 2 (class_of r)) (be_bytes 4 r.ttl ++ sized),
        length-append (be_bytes 4 r.ttl) sized,
        length-append (be_bytes 2 (length rdata)) rdata,
        length-be_bytes 2 (type_word r),
        length-be_bytes 2 (class_of r),
        length-be_bytes 4 r.ttl,
        length-be_bytes 2 (length rdata),
        named.some_bytes,
      )

abbrev Statement : (ℕ → Option ℕ) → List ℕ → ResourceRecord → NameCompression → ByteIo → Type 0
Statement try_sequence buf r ctx io =
    (bytes : List ℕ) × (table : NameCompression) × (put_record io buf r ctx
      ≡ some (buf ++ bytes, table))
    × IsTable (buf ++ bytes) table
    × ((after more : List ℕ)
        → be_record io try_sequence (bytes ++ after) (buf ++ (bytes ++ more)) ≡ ok (after, r))

-- Through every byte interface that keeps its laws: where the compression table is true of the buffer,
-- `put_record` appends bytes for a record and leaves a table that is true of the new buffer; and in the
-- message that the buffer has become, whatever follows, `be_record` reads the record back from those
-- bytes and leaves what follows. The name can be written, the numbers fit their types, and the data are
-- of the record's type and fit the 16 bits of their length. In E records
-- the flow info and the scope of IPv6 addresses are 0.
pub be_record-put_record :
    (io : ByteIo)
    → IsByteIo io
    → (try_sequence : ℕ → Option ℕ) (buf : List ℕ) (r : ResourceRecord) (ctx : NameCompression)
    → IsRecord try_sequence r
    → IsTable buf ctx
    → (bytes : List ℕ) × (table : NameCompression) × (put_record io buf r ctx
        ≡ some (buf ++ bytes, table))
      × IsTable (buf ++ bytes) table
      × ((after more : List ℕ)
          → be_record io try_sequence (bytes ++ after) (buf ++ (bytes ++ more)) ≡ ok (after, r))
be_record-put_record io laws try_sequence buf r ctx valid table =
    of_standard (Statement try_sequence buf r ctx) laws (
      (record_bytes (length buf) r ctx).0,
      (record_bytes (length buf) r ctx).1,
      put_record-bytes buf r ctx valid table,
      record_bytes-IsTable buf r ctx valid table,
      be_record-bytes buf r ctx valid table,
    )
