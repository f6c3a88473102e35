-- ===== src/MultiResponse/Defs.antt =====
-- The structs `ResponseRecord`, `MultiResponse` and `SignatureFields`, the printers and the parser. A
-- `none` of `encode_records` is the panic of a count that leaves its 32 bits.
use ddns.Prelude.{ℕ, zero, suc, ◌+◌, ◌%◌, ◌^◌, List, [], ◌∷◌, ◌++◌, Option, none, some}
use ddns.Prelude.{length, drop, ltb, if◌then◌else◌}
use ddns.Bytes.{ByteIo, IResult, ok, ◌>>=◌, be_bytes}

-- src/core/signature.rs: the three values of a publisher's signature, as bytes.
pub record SignatureFields : Type 0 where
  pub content_digest : List ℕ
  pub signature_input : List ℕ
  pub signature : List ℕ

unfoldable pub empty : SignatureFields
empty = record { content_digest = []; signature_input = []; signature = [] }

pub record ResponseRecord : Type 0 where
  pub signature_fields : SignatureFields
  pub dns : List ℕ
  pub cert : List ℕ

unfoldable pub unsigned : List ℕ → List ℕ → ResponseRecord
unsigned dns cert = record { signature_fields = empty; dns = dns; cert = cert }

pub record MultiResponse : Type 0 where
  pub records : List ResponseRecord

unfoldable pub record_size : ResponseRecord → ℕ
record_size r =
    4
    + length r.signature_fields.content_digest
    + 4
    + length r.signature_fields.signature_input
    + 4
    + length r.signature_fields.signature
    + 4
    + length r.dns
    + 4
    + length r.cert

unfoldable pub sizes : List ResponseRecord → ℕ
sizes [] = 0
sizes (r ∷ records) = record_size r + sizes records

unfoldable pub encoding_size : MultiResponse → ℕ
encoding_size response = 4 + sizes response.records

-- The count is copied over the four bytes that were left for it.
unfoldable pub write_count : Option (ℕ × List ℕ) → Option (List ℕ)
write_count none = none
write_count (some (count, buf)) = some (be_bytes 4 count ++ drop 4 buf)

module _ (io : ByteIo) where
  unfoldable pub put_field : List ℕ → List ℕ → List ℕ
  put_field buf value = io.put_slice (io.put_u32 buf (length value % 2 ^ 32)) value

  unfoldable pub put_response_record : List ℕ → ResponseRecord → List ℕ
  put_response_record buf r =
      let buf = put_field buf r.signature_fields.content_digest in
      let buf = put_field buf r.signature_fields.signature_input in
      let buf = put_field buf r.signature_fields.signature in
      let buf = put_field buf r.dns in put_field buf r.cert

  unfoldable pub put_response_records : List ℕ → List ResponseRecord → List ℕ
  put_response_records buf [] = buf
  put_response_records buf (r ∷ records) = put_response_records (put_response_record buf r) records

  unfoldable pub put_multi_response : List ℕ → MultiResponse → List ℕ
  put_multi_response buf response =
      put_response_records (io.put_u32 buf (length response.records % 2 ^ 32)) response.records

  unfoldable pub encode : MultiResponse → List ℕ
  encode response = put_multi_response [] response

  -- The loop of `encode_records` from a count on: `checked_add` and the record.
  unfoldable pub count_records : ℕ → List ℕ → List ResponseRecord → Option (ℕ × List ℕ)
  count_records count buf [] = some (count, buf)
  count_records count buf (r ∷ records) =
      let rest = count_records (count + 1) (put_response_record buf r) records in
      if ltb (count + 1) (2 ^ 32) then rest else none

  unfoldable pub encode_records : List ResponseRecord → Option (List ℕ)
  encode_records records = write_count (count_records 0 (io.put_u32 [] 0) records)

  unfoldable pub be_field : List ℕ → IResult (List ℕ)
  be_field input = do
    (input, len) ← io.be_u32 input
    (input, value) ← io.take len input
    ok (input, value)

  unfoldable pub be_response_record : List ℕ → IResult ResponseRecord
  be_response_record input = do
    (rest, content_digest) ← be_field input
    (rest, signature_input) ← be_field rest
    (rest, signature) ← be_field rest
    (rest, dns) ← be_field rest
    (rest, cert) ← be_field rest
    ok (
      rest,
      record {
        signature_fields = record {
          content_digest = content_digest;
          signature_input = signature_input;
          signature = signature;
        };
        dns = dns;
        cert = cert;
      },
    )

  unfoldable pub be_response_records : ℕ → List ℕ → IResult (List ResponseRecord)
  be_response_records zero input = ok (input, [])
  be_response_records (suc count) input = do
    (rest, r) ← be_response_record input
    (rest, records) ← be_response_records count rest
    ok (rest, r ∷ records)

  unfoldable pub be_multi_response : List ℕ → IResult MultiResponse
  be_multi_response input = do
    (input, count) ← io.be_u32 input
    (input, records) ← be_response_records count input
    ok (input, record { records = records })
