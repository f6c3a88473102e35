-- ===== src/Endpoint/Sign.antt =====
-- `sign_with_authority` and `verify_signature`. The key of an authority, its certificates and the
-- schemes (`qtls`, `rustls`, `sigin::verify`) are arguments: `canonical` is the scheme of its first
-- certificate, where there is one, and `sign` may fail. The outer `none` is the panic of `put_varint`.
use ddns.Prelude.{ℕ, ◌<◌, ◌^◌, ◌≡◌, ◌⊎◌, inl, inr, Bool, true, false}
use ddns.Prelude.{List, [], ◌++◌, Option, none, some, Option-cases, append-nil, subst, ap}
use ddns.Bytes.{ByteIo, IsByteIo, ok, err, incomplete, read_be, read_take}
use ddns.Bytes.Standard.{standard, of_standard}
use ddns.Endpoint.Defs.{
  EndpointSignature, EndpointAddr, set_signed, is_ipv6, is_nat, is_clustered, is_load, is_signed,
}
use ddns.Endpoint.Defs.{set_main, set_sequence}
use ddns.Prelude.{◌==◌}
use ddns.Endpoint.Wire.{signed_data, put_endpoint_addr, be_endpoint_addr, be_endpoint_signature}
use ddns.Endpoint.Fields.{Field}
use ddns.Endpoint.Flags.{signed-Kept}
use ddns.Endpoint.Signature.{IsSignature}
use ddns.Endpoint.Base.{
  IsBase, IsEndpoint, base_bytes, wire, write_base-standard, be_endpoint_addr-base,
}
use ddns.Endpoint.RoundTrip.{put_endpoint_addr-standard, be_endpoint_addr-wire}

pub record Authority : Type 0 where
  pub canonical : Option ℕ
  pub sign : ℕ → List ℕ → Option (List ℕ)

-- `SignEndpointError`
pub data SignEndpointError : Type 0 where
  sign_failed no_supported_scheme : SignEndpointError

module _ (io : ByteIo) where
  -- The record that the call leaves, and its result: `none` is `Ok(())`.
  unfoldable pub sign_with_authority :
      Authority → EndpointAddr → Option (EndpointAddr × Option SignEndpointError)
  sign_with_authority authority e =
      let e = set_signed e true in
      elim (signed_data io e) [
        | none ↦ none
        | some message ↦ elim authority.canonical [
          | none ↦ some (e, some no_supported_scheme)
          | some scheme ↦ elim (authority.sign scheme message) [
            | none ↦ some (e, some sign_failed)
            | some signature ↦ some (
              record e { signature = some (record { scheme = scheme; signature = signature }) },
              none,
            )
          ]
        ]
      ]

  -- `converted` is the transport address as a record, where it has one; a failure to sign is ignored.
  unfoldable pub sign_endponit_address :
      (ℕ → ℕ) → ℕ → Option Authority → Option EndpointAddr → Option (Option EndpointAddr)
  sign_endponit_address sequence_of server_id authority none = some none
  sign_endponit_address sequence_of server_id authority (some converted) =
      let ep = set_sequence (set_main converted (server_id == 0)) (sequence_of server_id) in
      elim authority [
        | none ↦ some (some ep)
        | some authority ↦ elim (sign_with_authority authority ep) [
          | none ↦ none
          | some (ep, _) ↦ some (some ep)
        ]
      ]

  -- The inner `none` is a `VerifyError`.
  unfoldable pub verify_signature :
      (ℕ → List ℕ → List ℕ → Option Bool) → EndpointAddr → Option (Option Bool)
  verify_signature verify e = elim e.signature [
    | none ↦ some (some false)
    | some sig ↦ elim (signed_data io e) [
      | none ↦ none
      | some message ↦ some (verify sig.scheme message sig.signature)
    ]
  ]

-- What a key promises: its scheme is a `u16`, a signature fits in memory, and it verifies.
pub record IsAuthority (authority : Authority) (verify : ℕ → List ℕ → List ℕ → Option Bool)
    : Type 0 where
  pub scheme_fits : (scheme : ℕ) → authority.canonical ≡ some scheme → scheme < 2 ^ 16
  pub signature_fits :
      (scheme : ℕ) (message sig : List ℕ)
      → authority.sign scheme message ≡ some sig
      → IsSignature (record { scheme = 0; signature = sig })
  pub verifies :
      (scheme : ℕ) (message sig : List ℕ)
      → authority.sign scheme message ≡ some sig
      → verify scheme message sig ≡ some true

-- The two outcomes of signing a record, at one byte interface.
abbrev Signed :
    (ℕ → Option ℕ)
    → Authority
    → (ℕ → List ℕ → List ℕ → Option Bool)
    → EndpointAddr
    → ByteIo
    → Type 0
Signed try_sequence authority verify e io =
    (signed : EndpointAddr) × (bs : List ℕ) × (sign_with_authority io authority e
      ≡ some (signed, none))
    × (put_endpoint_addr io [] signed ≡ some bs)
    × (be_endpoint_addr io try_sequence bs ≡ ok ([], signed))
    × (verify_signature io verify signed ≡ some (some true))

abbrev Unsigned : (ℕ → Option ℕ) → Authority → EndpointAddr → ByteIo → Type 0
Unsigned try_sequence authority e io =
    (error : SignEndpointError) × (left : EndpointAddr) × (bs : List ℕ) × (sign_with_authority io
        authority e
      ≡ some (left, some error))
    × (put_endpoint_addr io [] left ≡ some bs)
    × (be_endpoint_addr io try_sequence bs ≡ err (incomplete 2))

module _ {try_sequence : ℕ → Option ℕ} where
  -- The flag that says that a record is signed touches no other field.
  set_signed-IsBase :
      (e : EndpointAddr) (signature : Option EndpointSignature)
      → IsBase try_sequence e
      → IsBase try_sequence (record (set_signed e true) { signature = signature })
        × (is_signed (record (set_signed e true) { signature = signature }) ≡ true)
  unfolding set_signed is_ipv6 is_nat is_clustered is_load is_signed
  set_signed-IsBase e signature valid =
      let kept = signed-Kept e.flags valid.flags_fit true in
      (
        record {
          flags_fit = kept.fits;
          sequence_fits = rw kept.clustered valid.sequence_fits;
          primary_fits = rw kept.family valid.primary_fits;
          agent_fits = rw (kept.family, kept.nat) valid.agent_fits;
          load_fits = rw kept.load valid.load_fits;
        },
        kept.sign,
      )

  -- What is signed is written, whatever the signature.
  signed_data-standard :
      (e : EndpointAddr)
      → IsBase try_sequence e
      → signed_data standard e ≡ some (base_bytes (record (set_signed e true) { signature = none }))
  unfolding signed_data
  signed_data-standard e valid =
      write_base-standard try_sequence (record (set_signed e true) { signature = none })
        (set_signed-IsBase e none valid).0 []

  -- A record that says that it is signed and has no signature is written and cannot be read.
  flag_alone :
      (e : EndpointAddr)
      → IsBase try_sequence e
      → is_signed e ≡ true
      → e.signature ≡ none
      → (bs : List ℕ) × (put_endpoint_addr standard [] e ≡ some bs)
        × (be_endpoint_addr standard try_sequence bs ≡ err (incomplete 2))
  unfolding put_endpoint_addr be_endpoint_signature is_signed read_be read_take
  flag_alone e valid on missing =
      let read : be_endpoint_addr standard try_sequence (base_bytes e ++ []) ≡ err (incomplete 2) =
        rw (be_endpoint_addr-base try_sequence e valid [], on) in
      (
        base_bytes e,
        rw (write_base-standard try_sequence e valid [], on, missing),
        subst (λ bs. be_endpoint_addr standard try_sequence bs ≡ err (incomplete 2))
            (append-nil (base_bytes e)) read,
      )

  module _ (authority : Authority) (verify : ℕ → List ℕ → List ℕ → Option Bool)
      (key : IsAuthority authority verify) (e : EndpointAddr) (valid : IsBase try_sequence e) where
    to_sign : List ℕ
    to_sign = base_bytes (record (set_signed (set_signed e true) true) { signature = none })

    flagged : IsBase try_sequence (set_signed e true)
    unfolding set_signed
    flagged = (set_signed-IsBase e e.signature valid).0

    signs :
        (scheme : ℕ) (sig : List ℕ)
        → authority.canonical ≡ some scheme
        → authority.sign scheme to_sign ≡ some sig
        → Signed try_sequence authority verify e standard
    unfolding to_sign sign_with_authority verify_signature Field IsSignature set_signed
    signs scheme sig named made =
        let new : EndpointSignature = record { scheme = scheme; signature = sig } in
        let (based, signed) = set_signed-IsBase e (some new) valid in
        let whole : IsEndpoint try_sequence (record (set_signed e true) { signature = some new }) =
          record {
            base = based;
            signature_fits =
                rw signed
                  (key.scheme_fits scheme named, (key.signature_fits scheme to_sign sig made).1);
          } in
        let signed_one : EndpointAddr = record (set_signed e true) { signature = some new } in
        (
          signed_one,
          wire signed_one,
          rw (sign_with_authority, signed_data-standard (set_signed e true) flagged, named, made),
          put_endpoint_addr-standard try_sequence signed_one whole [],
          be_endpoint_addr-wire try_sequence signed_one whole,
          rw
              (
                verify_signature,
                signed_data-standard (record (set_signed e true) { signature = some new }) based,
              )
              (ap some (key.verifies scheme to_sign sig made)),
        )

    fails :
        (error : SignEndpointError)
        → e.signature ≡ none
        → sign_with_authority standard authority e ≡ some (set_signed e true, some error)
        → Unsigned try_sequence authority e standard
    unfolding set_signed
    fails error missing result =
        let (base, on) = set_signed-IsBase e e.signature valid in
        let (bs, written, read) = flag_alone (set_signed e true) base on missing in
        (error, set_signed e true, bs, result, written, read)

    outcome :
        e.signature ≡ none
        → Signed try_sequence authority verify e standard
          ⊎ Unsigned try_sequence authority e standard
    unfolding to_sign sign_with_authority
    outcome missing =
        let message = signed_data-standard (set_signed e true) flagged in
        elim (Option-cases authority.canonical) [
          | inl none_named ↦
              inr
                (fails no_supported_scheme missing (rw (sign_with_authority, message, none_named)))
          | inr (scheme, named) ↦ elim (Option-cases (authority.sign scheme to_sign)) [
            | inl none_made ↦
                inr
                  (fails sign_failed missing (rw (sign_with_authority, message, named, none_made)))
            | inr (sig, made) ↦ inl (signs scheme sig named made)
          ]
        ]

-- Through every byte interface that keeps its laws, `sign_with_authority` on a well-formed record with no
-- signature ends in one of two ways. It succeeds, and then the record that `be_endpoint_addr` reads from
-- the bytes that `put_endpoint_addr` writes is the signed one and `verify_signature` accepts it. Or it
-- fails, and leaves a record whose flag says that it is signed: `put_endpoint_addr` writes it, and
-- `be_endpoint_addr` cannot read those bytes and asks for two more. The key's signatures verify, and the
-- flow info and the scope of the record's IPv6 addresses are 0.
pub sign_with_authority-outcome :
    (io : ByteIo)
    → IsByteIo io
    → (try_sequence : ℕ → Option ℕ) (authority : Authority)
      (verify : ℕ → List ℕ → List ℕ → Option Bool)
    → IsAuthority authority verify
    → (e : EndpointAddr) → IsBase try_sequence e
    → e.signature ≡ none
    → ((signed : EndpointAddr) × (bs : List ℕ) × (sign_with_authority io authority e
          ≡ some (signed, none))
        × (put_endpoint_addr io [] signed ≡ some bs)
        × (be_endpoint_addr io try_sequence bs ≡ ok ([], signed))
        × (verify_signature io verify signed ≡ some (some true)))
      ⊎ ((error : SignEndpointError) × (left : EndpointAddr) × (bs : List ℕ) × (sign_with_authority
              io authority e
            ≡ some (left, some error))
          × (put_endpoint_addr io [] left ≡ some bs)
          × (be_endpoint_addr io try_sequence bs ≡ err (incomplete 2)))
sign_with_authority-outcome io laws try_sequence authority verify key e valid missing =
    of_standard
      (λ io. Signed try_sequence authority verify e io ⊎ Unsigned try_sequence authority e io) laws
      (outcome authority verify key e valid missing)
