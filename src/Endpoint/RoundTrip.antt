-- ===== src/Endpoint/RoundTrip.antt =====
-- `put_endpoint_addr` against `be_endpoint_addr`, `be_endpoint_addr_compat` and `encpding_size`.
use ddns.Prelude.{ℕ, ◌≡◌, sym, ◌∙◌, arith, List, [], ◌++◌}
use ddns.Prelude.{append_assoc, length, length-append, Option, some}
use ddns.Bytes.{ByteIo, IsByteIo, ok}
use ddns.Bytes.Standard.{standard, of_standard}
use ddns.Endpoint.Defs.{EndpointAddr, is_clustered, is_signed, encpding_size}
use ddns.Endpoint.Wire.{put_endpoint_addr, be_endpoint_addr}
use ddns.Endpoint.Scope.{wired, put_endpoint_addr-wired, encpding_size-wired}
use ddns.Endpoint.Signature.{signature_bytes, put_signature-standard, be_endpoint_signature-bytes}
use ddns.Endpoint.Size.{length-sequence_bytes, length-signature_bytes}
use ddns.Endpoint.Base.{
  IsEndpoint, base_bytes, wire, write_base-standard, be_endpoint_addr-base, length-base_bytes,
}
use ddns.Endpoint.Compat.{be_endpoint_addr_compat, be_endpoint_addr_compat_modern}

module _ (try_sequence : ℕ → Option ℕ) (e : EndpointAddr) (valid : IsEndpoint try_sequence e) where
  pub put_endpoint_addr-standard :
      (buf : List ℕ) → put_endpoint_addr standard buf e ≡ some (buf ++ wire e)
  unfolding put_endpoint_addr wire
  put_endpoint_addr-standard buf =
      rw
        (
          write_base-standard try_sequence e valid.base buf,
          put_signature-standard (is_signed e) (buf ++ base_bytes e) e.signature
              valid.signature_fits,
        )
        (simp append_assoc)

  pub be_endpoint_addr-wire : be_endpoint_addr standard try_sequence (wire e) ≡ ok ([], e)
  unfolding wire is_signed
  be_endpoint_addr-wire = rw (
    be_endpoint_addr-base try_sequence e valid.base (signature_bytes e.signature),
    be_endpoint_signature-bytes e.flags e.signature valid.signature_fits,
  )

  encpding_size-wire : encpding_size e ≡ some (length (wire e))
  unfolding encpding_size wire is_clustered is_signed
  encpding_size-wire =
      rw
        (
          length-sequence_bytes try_sequence (is_clustered e) e.sequence valid.base.sequence_fits,
          length-signature_bytes (is_signed e) e.signature valid.signature_fits,
          length-append (base_bytes e) _,
          length-base_bytes try_sequence e valid.base,
        )
        (ground arith)

abbrev RoundTrips : (ℕ → Option ℕ) → EndpointAddr → List ℕ → ByteIo → Type 0
RoundTrips try_sequence e buf io =
    (bs : List ℕ) × (put_endpoint_addr io buf e ≡ some (buf ++ bs))
    × (encpding_size e ≡ some (length bs))
    × (be_endpoint_addr io try_sequence bs ≡ ok ([], wired e))

-- Through every byte interface that keeps its laws, `put_endpoint_addr` appends to the buffer as many
-- bytes as `encpding_size` says, and from them `be_endpoint_addr` reads the record `wired e`: the one that
-- was written, but with the flow info and the scope of each IPv6 address 0. The numbers of the record fit
-- their types, each optional field is there exactly if its flag is set, both addresses are of the family
-- of the flags, and the type of certificate sequences has its sequence number; flow info and scope may be
-- anything, since `wired e` is what is asked to be well formed.
pub be_endpoint_addr-put_endpoint_addr :
    (io : ByteIo)
    → IsByteIo io
    → (try_sequence : ℕ → Option ℕ) (e : EndpointAddr) (buf : List ℕ)
    → IsEndpoint try_sequence (wired e)
    → (bs : List ℕ) × (put_endpoint_addr io buf e ≡ some (buf ++ bs))
      × (encpding_size e ≡ some (length bs))
      × (be_endpoint_addr io try_sequence bs ≡ ok ([], wired e))
be_endpoint_addr-put_endpoint_addr io laws try_sequence e buf valid =
    of_standard (RoundTrips try_sequence e buf) laws (
      wire (wired e),
      sym (put_endpoint_addr-wired buf e)
          ∙ put_endpoint_addr-standard try_sequence (wired e) valid buf,
      sym (encpding_size-wired e) ∙ encpding_size-wire try_sequence (wired e) valid,
      be_endpoint_addr-wire try_sequence (wired e) valid,
    )

-- Through every byte interface that keeps its laws, `be_endpoint_addr_compat` reads what
-- `put_endpoint_addr` writes as `be_endpoint_addr` does, whatever record length it is given: the record
-- with the flow info and the scope of each IPv6 address 0. So a modern record whose length is that of a
-- legacy layout is not taken for one, whatever the function's comment says. The record is as in
-- `be_endpoint_addr-put_endpoint_addr`.
pub be_endpoint_addr_compat-put_endpoint_addr :
    (io : ByteIo)
    → IsByteIo io
    → (try_sequence : ℕ → Option ℕ) (e : EndpointAddr) (rdlen : ℕ)
    → IsEndpoint try_sequence (wired e)
    → (bs : List ℕ) × (put_endpoint_addr io [] e ≡ some bs)
      × (be_endpoint_addr_compat io try_sequence bs rdlen ≡ ok ([], wired e))
be_endpoint_addr_compat-put_endpoint_addr io laws try_sequence e rdlen valid =
    let (bs, written, _, read) =
      be_endpoint_addr-put_endpoint_addr io laws try_sequence e [] valid in
    (bs, written, be_endpoint_addr_compat_modern io try_sequence bs rdlen (wired e) read)
