-- ===== src/MultiResponse/Stream.antt =====
-- `encode_records`, which writes records as they come and the count last, against `encode`.
use ddns.Prelude.{ℕ, ◌+◌, ◌<◌, ◌≤◌, ◌%◌, ◌^◌, ◌≡◌, ◌⊎◌, inl, inr, ap, ◌∙◌, arith, List, [], ◌∷◌}
use ddns.Prelude.{none, some, length, drop_exact, ltb, true, Bool-cases}
use ddns.Bytes.{ByteIo, IsByteIo, be_bytes, length-be_bytes}
use ddns.Bytes.Standard.{standard, of_standard}
use ddns.MultiResponse.Defs.{
  ResponseRecord, put_response_record, put_response_records, put_multi_response, encode,
  count_records, encode_records, write_count,
}
use ddns.MultiResponse.RoundTrip.{put_response_records_appends}

count_records_fits :
    (count : ℕ) (buf : List ℕ) (records : List ResponseRecord)
    → count + length records < 2 ^ 32
    → count_records standard count buf records
      ≡ some (count + length records, put_response_records standard buf records)
unfolding count_records put_response_records
count_records_fits count buf [] h = ap (λ n. some (n, buf)) (omega arith)
count_records_fits count buf (r ∷ records) h =
    let again =
      count_records_fits (count + 1) (put_response_record standard buf r) records (omega arith) in
    let moved : count + 1 + length records ≡ count + length (r ∷ records) = omega arith in
    let fits : ltb (count + 1) (2 ^ 32) ≡ true = ground arith in
    rw (fits, again)
      (ap
        (λ n. some (n, put_response_records standard (put_response_record standard buf r) records))
        moved)

count_records_overflow :
    (count : ℕ) (buf : List ℕ) (records : List ResponseRecord)
    → count < 2 ^ 32
    → 2 ^ 32 ≤ count + length records
    → count_records standard count buf records ≡ none
unfolding count_records
count_records_overflow count buf [] h k = absurd (omega arith)
count_records_overflow count buf (r ∷ records) h k = elim (Bool-cases (ltb (count + 1) (2 ^ 32))) [
  | inl e ↦ rw (
    e,
    count_records_overflow (count + 1) (put_response_record standard buf r) records (ground arith)
        (omega arith),
  )
  | inr e ↦ rw e
]

encode_records_fits :
    (records : List ResponseRecord)
    → length records < 2 ^ 32
    → encode_records standard records ≡ some (encode standard (record { records = records }))
unfolding encode_records encode put_multi_response write_count
encode_records_fits records h =
    let small : length records % 2 ^ 32 ≡ length records = omega arith in
    let counted : count_records standard 0 (be_bytes 4 0) records
        ≡ some (length records, put_response_records standard (be_bytes 4 0) records) =
      count_records_fits 0 (be_bytes 4 0) records (omega arith)
      ∙ ap (λ n. some (n, put_response_records standard (be_bytes 4 0) records)) (omega arith) in
    ap write_count counted
    ∙ rw (
      put_response_records_appends (be_bytes 4 0) records,
      drop_exact 4 (be_bytes 4 0) (put_response_records standard [] records) (length-be_bytes 4 0),
      small,
      put_response_records_appends (be_bytes 4 (length records)) records,
    )

encode_records_overflow :
    (records : List ResponseRecord)
    → 2 ^ 32 ≤ length records
    → encode_records standard records ≡ none
unfolding encode_records write_count
encode_records_overflow records h =
    ap write_count (count_records_overflow 0 (be_bytes 4 0) records (omega arith) (omega arith))

-- Written as they come, fewer than 2 ^ 32 records give the bytes that `encode` writes for the response
-- of these records; with more, the count overflows and the call panics.
pub encode_records-encode :
    (io : ByteIo)
    → IsByteIo io
    → (records : List ResponseRecord)
    → ((length records < 2 ^ 32)
        × (encode_records io records ≡ some (encode io (record { records = records }))))
      ⊎ ((2 ^ 32 ≤ length records) × (encode_records io records ≡ none))
encode_records-encode io laws records =
    of_standard
      (λ io.
        ((length records < 2 ^ 32)
          × (encode_records io records ≡ some (encode io (record { records = records }))))
        ⊎ ((2 ^ 32 ≤ length records) × (encode_records io records ≡ none)))
      laws
      (elim (Bool-cases (ltb (length records) (2 ^ 32))) [
        | inl e ↦ inl (ground arith, encode_records_fits records (ground arith))
        | inr e ↦ inr (ground arith, encode_records_overflow records (ground arith))
      ])
