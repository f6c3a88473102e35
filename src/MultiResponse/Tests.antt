-- ===== src/MultiResponse/Tests.antt =====
-- The printers and the parser on a response of two records.
use ddns.Prelude.{ℕ, ◌<◌, ◌≤◌, ◌^◌, ◌≡◌, ◌⊎◌, refl, arith, List, [], ◌∷◌, ◌++◌, none, some, length}
use ddns.Bytes.{ok, err, incomplete, read_be}
use ddns.Bytes.Standard.{standard, standard-IsByteIo}
use ddns.MultiResponse.Defs.{
  ResponseRecord, unsigned, empty, encode, encoding_size, encode_records, be_multi_response,
  be_response_records, be_response_record, be_field, sizes, record_size,
}
use ddns.MultiResponse.RoundTrip.{IsResponseRecord, be_multi_response-encode}
use ddns.MultiResponse.Stream.{encode_records-encode}

abbrev two : List ResponseRecord
two = unsigned (1 ∷ 2 ∷ []) (3 ∷ []) ∷ unsigned [] (4 ∷ []) ∷ []

two_cut : be_multi_response standard (0 ∷ 0 ∷ 0 ∷ 1 ∷ 0 ∷ 0 ∷ []) ≡ err (incomplete 2)
unfolding be_multi_response be_response_records be_response_record be_field read_be
two_cut = refl

two_size : encoding_size (record { records = two }) ≡ 48
unfolding encoding_size sizes record_size unsigned empty
two_size = refl

part-IsResponseRecord :
    (dns cert : List ℕ)
    → length dns < 2 ^ 32
    → length cert < 2 ^ 32
    → IsResponseRecord (unsigned dns cert)
unfolding unsigned empty
part-IsResponseRecord dns cert h k = record {
  digest_fits = omega arith;
  input_fits = omega arith;
  signature_fits = omega arith;
  dns_fits = h;
  cert_fits = k;
}

be_multi_response-encode_example :
    (be_multi_response standard (encode standard (record { records = two }) ++ (9 ∷ []))
      ≡ ok (9 ∷ [], record { records = two }))
    × (length (encode standard (record { records = two }))
        ≡ encoding_size (record { records = two }))
be_multi_response-encode_example =
    be_multi_response-encode standard standard-IsByteIo (record { records = two }) (9 ∷ [])
      (omega arith)
      (
        part-IsResponseRecord (1 ∷ 2 ∷ []) (3 ∷ []) (omega arith) (omega arith),
        (part-IsResponseRecord [] (4 ∷ []) (omega arith) (omega arith), tt),
      )

encode_records-encode_example :
    ((2 < 2 ^ 32)
      × (encode_records standard two ≡ some (encode standard (record { records = two }))))
    ⊎ ((2 ^ 32 ≤ 2) × (encode_records standard two ≡ none))
encode_records-encode_example = encode_records-encode standard standard-IsByteIo two
