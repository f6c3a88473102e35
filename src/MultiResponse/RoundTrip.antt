-- ===== src/MultiResponse/RoundTrip.antt =====
-- The two printers against one another, against `encoding_size`, and against the parser.
use ddns.Prelude.{ℕ, ◌+◌, ◌<◌, ◌%◌, ◌^◌, ◌≡◌, refl, ap, ◌∙◌, arith, List, [], ◌∷◌, ◌++◌}
use ddns.Prelude.{length, length-append, append_assoc, append-nil, All}
use ddns.Bytes.{ByteIo, IsByteIo, ok, be_bytes, length-be_bytes, read_be-be_bytes, read_take-append}
use ddns.Bytes.Standard.{standard, of_standard}
use ddns.MultiResponse.Defs.{
  ResponseRecord, MultiResponse, record_size, sizes, encoding_size, put_field, put_response_record,
  put_response_records, put_multi_response, encode, be_field, be_response_record,
  be_response_records, be_multi_response,
}

-- A record whose parts are as long as a `u32` can say.
pub record IsResponseRecord (r : ResponseRecord) : Type 0 where
  pub digest_fits : length r.signature_fields.content_digest < 2 ^ 32
  pub input_fits : length r.signature_fields.signature_input < 2 ^ 32
  pub signature_fits : length r.signature_fields.signature < 2 ^ 32
  pub dns_fits : length r.dns < 2 ^ 32
  pub cert_fits : length r.cert < 2 ^ 32

unfoldable field_bytes : List ℕ → List ℕ
field_bytes value = be_bytes 4 (length value % 2 ^ 32) ++ value

put_field-bytes : (buf value : List ℕ) → put_field standard buf value ≡ buf ++ field_bytes value
unfolding put_field field_bytes
put_field-bytes buf value = simp append_assoc

be_field-bytes :
    (value rest : List ℕ)
    → length value < 2 ^ 32
    → be_field standard (field_bytes value ++ rest) ≡ ok (rest, value)
unfolding be_field field_bytes
be_field-bytes value rest h =
    let small : length value % 2 ^ 32 ≡ length value = omega arith in
    simp append_assoc
      (rw (small, read_be-be_bytes 4 (length value) (value ++ rest) h, read_take-append value rest))

length-field_bytes : (value : List ℕ) → length (field_bytes value) ≡ 4 + length value
unfolding field_bytes
length-field_bytes value = omega (
  arith,
  length-append (be_bytes 4 (length value % 2 ^ 32)) value,
  length-be_bytes 4 (length value % 2 ^ 32),
)

unfoldable record_bytes : ResponseRecord → List ℕ
record_bytes r =
    field_bytes r.signature_fields.content_digest
    ++ (field_bytes r.signature_fields.signature_input
        ++ (field_bytes r.signature_fields.signature ++ (field_bytes r.dns ++ field_bytes r.cert)))

put_response_record-bytes :
    (buf : List ℕ) (r : ResponseRecord) → put_response_record standard buf r ≡ buf ++ record_bytes r
unfolding put_response_record record_bytes put_field field_bytes
put_response_record-bytes buf r = simp append_assoc

be_response_record-bytes :
    (r : ResponseRecord) (rest : List ℕ)
    → IsResponseRecord r
    → be_response_record standard (record_bytes r ++ rest) ≡ ok (rest, r)
unfolding be_response_record record_bytes
be_response_record-bytes r rest h = simp append_assoc (
    rw (
      be_field-bytes r.signature_fields.content_digest _ h.digest_fits,
      be_field-bytes r.signature_fields.signature_input _ h.input_fits,
      be_field-bytes r.signature_fields.signature _ h.signature_fits,
      be_field-bytes r.dns _ h.dns_fits,
      be_field-bytes r.cert _ h.cert_fits,
    ))

length-record_bytes : (r : ResponseRecord) → length (record_bytes r) ≡ record_size r
unfolding record_bytes record_size
length-record_bytes r = simp (length-append, length-field_bytes) (omega arith)

unfoldable records_bytes : List ResponseRecord → List ℕ
records_bytes [] = []
records_bytes (r ∷ records) = record_bytes r ++ records_bytes records

put_response_records-bytes :
    (buf : List ℕ) (records : List ResponseRecord)
    → put_response_records standard buf records ≡ buf ++ records_bytes records
unfolding put_response_records records_bytes
put_response_records-bytes buf [] = rw (append-nil buf)
put_response_records-bytes buf (r ∷ records) =
    put_response_records-bytes (put_response_record standard buf r) records
    ∙ rw (put_response_record-bytes buf r) (simp append_assoc)

pub put_response_records_appends :
    (buf : List ℕ) (records : List ResponseRecord)
    → put_response_records standard buf records ≡ buf ++ put_response_records standard [] records
put_response_records_appends buf records =
    rw (put_response_records-bytes buf records, put_response_records-bytes [] records)

length-records_bytes :
    (records : List ResponseRecord) → length (records_bytes records) ≡ sizes records
unfolding records_bytes sizes
length-records_bytes [] = refl
length-records_bytes (r ∷ records) = omega (
  arith,
  length-append (record_bytes r) (records_bytes records),
  length-record_bytes r,
  length-records_bytes records,
)

be_response_records-bytes :
    (records : List ResponseRecord) (rest : List ℕ)
    → All IsResponseRecord records
    → be_response_records standard (length records) (records_bytes records ++ rest)
      ≡ ok (rest, records)
unfolding be_response_records records_bytes
be_response_records-bytes [] rest h = refl
be_response_records-bytes (r ∷ records) rest (h, hs) = simp append_assoc (
    rw (
      be_response_records,
      be_response_record-bytes r (records_bytes records ++ rest) h,
      be_response_records-bytes records rest hs,
    ))

length-encode : (r : MultiResponse) → length (encode standard r) ≡ encoding_size r
unfolding encode put_multi_response encoding_size
length-encode r =
    ap length (put_response_records-bytes (be_bytes 4 (length r.records % 2 ^ 32)) r.records)
    ∙ omega (
      arith,
      length-append (be_bytes 4 (length r.records % 2 ^ 32)) (records_bytes r.records),
      length-be_bytes 4 (length r.records % 2 ^ 32),
      length-records_bytes r.records,
    )

encode_reads :
    (r : MultiResponse) (rest : List ℕ)
    → length r.records < 2 ^ 32
    → All IsResponseRecord r.records
    → be_multi_response standard (encode standard r ++ rest) ≡ ok (rest, r)
unfolding encode put_multi_response be_multi_response
encode_reads r rest n h =
    let small : length r.records % 2 ^ 32 ≡ length r.records = omega arith in
    rw (put_response_records-bytes (be_bytes 4 (length r.records % 2 ^ 32)) r.records) (
      simp append_assoc (
        rw (
          small,
          read_be-be_bytes 4 (length r.records) (records_bytes r.records ++ rest) n,
          be_response_records-bytes r.records rest h,
        )))

-- A response of fewer than 2 ^ 32 records, no part of which is 2 ^ 32 bytes or longer, is encoded in
-- `encoding_size` bytes, from which the parser reads the response again and leaves what follows.
pub be_multi_response-encode :
    (io : ByteIo)
    → IsByteIo io
    → (r : MultiResponse) (rest : List ℕ) → length r.records < 2 ^ 32
    → All IsResponseRecord r.records
    → (be_multi_response io (encode io r ++ rest) ≡ ok (rest, r))
      × (length (encode io r) ≡ encoding_size r)
be_multi_response-encode io laws r rest n h =
    of_standard
      (λ io.
        (be_multi_response io (encode io r ++ rest) ≡ ok (rest, r))
        × (length (encode io r) ≡ encoding_size r))
      laws (encode_reads r rest n h, length-encode r)
