-- ===== src/Endpoint/Signature.antt =====
-- The signature at the end of an E record: its bytes, its parser on them, and the parser's answer for a
-- record that is not signed.
use ddns.Prelude.{ℕ, ◌≡◌, refl, arith, ◌<◌, ◌^◌, Bool, true, false, List, [], ◌++◌}
use ddns.Prelude.{append_assoc, append-nil, length, Option, none, some, ◌==◌}
use ddns.Bytes.{ok, be_bytes, read_be-be_bytes, read_take_all}
use ddns.Bytes.Standard.{standard}
use ddns.VarInt.{of_u64}
use ddns.VarInt.RoundTrip.{encoding, put_varint-standard, be_varint-encoding}
use ddns.Endpoint.Defs.{EndpointSignature, flag_signed, signature_length}
use ddns.Endpoint.Wire.{put_signature, be_endpoint_signature}
use ddns.Endpoint.Fields.{Field}
use Prim.Native.Nat.{bit_and}

-- A scheme is a `u16`, and a longer signature is longer than any memory.
unfoldable pub IsSignature : EndpointSignature → Type 0
IsSignature sig = (sig.scheme < 2 ^ 16) × (length sig.signature < 2 ^ 62)

unfoldable pub signature_bytes : Option EndpointSignature → List ℕ
signature_bytes (some sig) =
    be_bytes 2 sig.scheme ++ (encoding (length sig.signature) ++ sig.signature)
signature_bytes none = []

pub signature_length-fits :
    (sig : List ℕ) → length sig < 2 ^ 62 → signature_length sig ≡ record { value = length sig }
unfolding signature_length of_u64
signature_length-fits sig h = ground arith

pub put_signature-standard :
    (flag : Bool) (buf : List ℕ) (sig : Option EndpointSignature)
    → Field IsSignature flag sig
    → put_signature standard buf flag sig ≡ some (buf ++ signature_bytes sig)
unfolding Field IsSignature signature_bytes
put_signature-standard true buf (some sig) h =
    rw
      (
        signature_length-fits sig.signature h.1,
        put_varint-standard (buf ++ be_bytes 2 sig.scheme) (record { value = length sig.signature })
            h.1,
      )
      (simp append_assoc)
put_signature-standard false buf none h = rw (append-nil buf)
put_signature-standard true buf none h = absurd h
put_signature-standard false buf (some sig) h = absurd h

by_flag :
    (flags : ℕ) (flag : Bool)
    → (bit_and flags flag_signed == flag_signed) ≡ flag
    → (sig : Option EndpointSignature) → Field IsSignature flag sig
    → be_endpoint_signature standard (signature_bytes sig) flags ≡ ok ([], sig)
unfolding be_endpoint_signature signature_bytes Field IsSignature
by_flag flags true e (some sig) h = rw (
  e,
  read_be-be_bytes 2 sig.scheme _ h.0,
  be_varint-encoding (length sig.signature) sig.signature h.1,
  read_take_all sig.signature,
)
by_flag flags false e none h = rw e
by_flag flags true e none h = absurd h
by_flag flags false e (some sig) h = absurd h

pub be_endpoint_signature-bytes :
    (flags : ℕ) (sig : Option EndpointSignature)
    → Field IsSignature (bit_and flags flag_signed == flag_signed) sig
    → be_endpoint_signature standard (signature_bytes sig) flags ≡ ok ([], sig)
be_endpoint_signature-bytes flags sig h = by_flag flags _ refl sig h
