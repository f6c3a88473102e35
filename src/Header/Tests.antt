-- ===== src/Header/Tests.antt =====
-- Runs of the header functions, and the theorems at concrete inputs.
use ddns.Prelude.{ℕ, ◌≡◌, refl, arith, false, true, List, [], ◌∷◌, ◌++◌, length}
use ddns.Bytes.{ok, read_be}
use ddns.Bytes.Standard.{standard, standard-IsByteIo}
use ddns.Header.FlagBits.{Flags, flags_of_bits}
use ddns.Header.FlagBits.{standard_query, no_error, opcode_of_bits, rcode_of_bits}
use ddns.Header.Defs.{Header, be_header, put_header}
use ddns.Header.RoundTrip.{be_header-put_header}

-- A response to a recursive query.
abbrev response_flags : Flags
response_flags = record {
  query = true;
  opcode = standard_query;
  authoritative = false;
  trun_cache = false;
  recursion_desired = true;
  recursion_available = true;
  zero = false;
  authenticated_data = false;
  checking_disabled = false;
  response_code = no_error;
}

abbrev response : Header
response = record {
  id = 1573;
  flags = response_flags;
  questions_count = 1;
  answers_count = 1;
  nameservers_count = 0;
  additional_count = 0;
}

reads_response :
    be_header standard (0x06 ∷ 0x25 ∷ 0x81 ∷ 0x80 ∷ 0 ∷ 1 ∷ 0 ∷ 1 ∷ 0 ∷ 0 ∷ 0 ∷ 0 ∷ 7 ∷ [])
    ≡ ok (7 ∷ [], response)
unfolding be_header read_be flags_of_bits opcode_of_bits rcode_of_bits
reads_response = refl

be_header-put_header_example :
    (bs : List ℕ) × (put_header standard (5 ∷ []) response ≡ (5 ∷ []) ++ bs)
    × (length bs ≡ 12)
    × (be_header standard (bs ++ (9 ∷ [])) ≡ ok (9 ∷ [], response))
be_header-put_header_example =
    be_header-put_header standard standard-IsByteIo response (5 ∷ []) (9 ∷ []) (record {
      id_fits = omega arith;
      flags_fit = (tt, tt);
      questions_fit = omega arith;
      answers_fit = omega arith;
      nameservers_fit = omega arith;
      additional_fit = omega arith;
    })
