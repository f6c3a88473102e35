-- ===== src/Endpoint/Tests.antt =====
-- Runs of the E record functions on the records of the unit tests, and the theorems at concrete inputs.
use ddns.Prelude.{
  ℕ, ◌≡◌, refl, arith, ◌⊎◌, Bool, true, false, List, [], ◌∷◌, ◌++◌, Option, none, some,
}
use ddns.Prelude.{length, ◌==◌}
use ddns.Bytes.{ok, err, incomplete}
use ddns.Bytes.Standard.{standard, standard-IsByteIo}
use ddns.Endpoint.Defs.{
  v6, EndpointAddr, direct_v6, set_clustered, nat_v4, set_main, set_load, set_sequence,
  encpding_size,
}
use ddns.Endpoint.Fields.{IsSequence}
use ddns.Endpoint.Scope.{IsAddr, wired, wire_addr, wire_agent}
use ddns.Endpoint.Wire.{put_endpoint_addr, be_endpoint_addr}
use ddns.Endpoint.Compat.{be_endpoint_addr_compat}
use ddns.Endpoint.Base.{IsEndpoint}
use ddns.Endpoint.Setters.{
  Built, new_direct_v6, new_nat_v4, then_main, then_load, then_sequence, Built-IsEndpoint,
}
use ddns.Endpoint.RoundTrip.{
  be_endpoint_addr-put_endpoint_addr, be_endpoint_addr_compat-put_endpoint_addr,
}
use ddns.Endpoint.Signature.{IsSignature}
use ddns.Endpoint.Sign.{
  Authority, IsAuthority, SignEndpointError, sign_with_authority, verify_signature,
  sign_with_authority-outcome,
}

-- A clustered primary behind NAT with a load.
abbrev outer : ℕ
outer = 0x01020304

unfoldable clustered : EndpointAddr
clustered =
    set_sequence (set_load (set_main (nat_v4 outer 443 0x0a000001 20004) true) (some 0x3f000000))
      300

abbrev sequences : ℕ → Option ℕ
sequences s = some s

clustered-Built : Built sequences clustered
unfolding clustered IsAddr IsSequence
clustered-Built =
    then_sequence _ 300 (omega arith, refl)
      (then_load _ (some 0x3f000000) (omega arith) (
        then_main _ true (
          new_nat_v4 outer 443 0x0a000001 20004 (omega arith, omega arith)
            (omega arith, omega arith))))

clustered-IsEndpoint : IsEndpoint sequences clustered
unfolding clustered wired wire_addr wire_agent nat_v4 set_main set_load set_sequence set_clustered
clustered-IsEndpoint = Built-IsEndpoint sequences clustered clustered-Built

-- An address on the link of interface 2, with a flow label and a load.
unfoldable scoped : EndpointAddr
scoped = set_load (direct_v6 1 443 5 2) (some 0x3f000000)

scoped-Built : Built sequences scoped
unfolding scoped IsAddr
scoped-Built =
    then_load _ (some 0x3f000000) (omega arith)
      (new_direct_v6 1 443 5 2 (omega arith, omega arith, omega arith, omega arith))

Built-IsEndpoint_example : IsEndpoint sequences (wired scoped)
Built-IsEndpoint_example = Built-IsEndpoint sequences scoped scoped-Built

scoped-IsEndpoint : IsEndpoint sequences (wired scoped)
scoped-IsEndpoint = Built-IsEndpoint sequences scoped scoped-Built

-- The record that is read is not the one that was written.
scope_lost : (wired scoped).primary ≡ v6 1 443 0 0
unfolding scoped wired wire_addr direct_v6 set_load
scope_lost = refl

be_endpoint_addr-put_endpoint_addr_example :
    (bs : List ℕ) × (put_endpoint_addr standard (7 ∷ []) scoped ≡ some ((7 ∷ []) ++ bs))
    × (encpding_size scoped ≡ some (length bs))
    × (be_endpoint_addr standard sequences bs ≡ ok ([], wired scoped))
be_endpoint_addr-put_endpoint_addr_example =
    be_endpoint_addr-put_endpoint_addr standard standard-IsByteIo sequences scoped (7 ∷ [])
      scoped-IsEndpoint

be_endpoint_addr_compat-put_endpoint_addr_example :
    (bs : List ℕ) × (put_endpoint_addr standard [] scoped ≡ some bs)
    × (be_endpoint_addr_compat standard sequences bs 36 ≡ ok ([], wired scoped))
be_endpoint_addr_compat-put_endpoint_addr_example =
    be_endpoint_addr_compat-put_endpoint_addr standard standard-IsByteIo sequences scoped 36
      scoped-IsEndpoint

-- A key whose signature is the length of the message, as one byte.
abbrev one_byte : Authority
one_byte = record { canonical = some 0x0807; sign = λ scheme message. some (length message ∷ []) }

abbrev verify_one_byte : ℕ → List ℕ → List ℕ → Option Bool
verify_one_byte scheme message [] = some false
verify_one_byte scheme message (b ∷ bs) = some (b == length message)

one_byte-IsAuthority : IsAuthority one_byte verify_one_byte
unfolding IsSignature
one_byte-IsAuthority = record {
  scheme_fits = λ scheme h. grind arith;
  signature_fits = λ scheme message sig h. ground arith;
  verifies = λ scheme message sig h. ground arith;
}

sign_with_authority-outcome_example :
    ((signed : EndpointAddr) × (bs : List ℕ) × (sign_with_authority standard one_byte clustered
        ≡ some (signed, none))
      × (put_endpoint_addr standard [] signed ≡ some bs)
      × (be_endpoint_addr standard sequences bs ≡ ok ([], signed))
      × (verify_signature standard verify_one_byte signed ≡ some (some true)))
    ⊎ ((error : SignEndpointError) × (left : EndpointAddr) × (bs : List ℕ) × (sign_with_authority
            standard one_byte clustered
          ≡ some (left, some error))
        × (put_endpoint_addr standard [] left ≡ some bs)
        × (be_endpoint_addr standard sequences bs ≡ err (incomplete 2)))
unfolding clustered set_sequence set_load set_main nat_v4
sign_with_authority-outcome_example =
    sign_with_authority-outcome standard standard-IsByteIo sequences one_byte verify_one_byte
      one_byte-IsAuthority clustered clustered-IsEndpoint.base refl
