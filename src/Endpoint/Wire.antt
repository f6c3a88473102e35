-- ===== src/Endpoint/Wire.antt =====
-- The printer and the parsers of an E record. A `none` of the printer is the panic of `put_varint`.
-- `CertificateSequence` is a type of the crate `dhttp_home`: its `try_from` is an argument of the
-- parser.
use ddns.Prelude.{ℕ, Bool, true, false}
use ddns.Prelude.{List, [], ◌∷◌, Option, none, some, ◌==◌, if◌then◌else◌}
use ddns.Bytes.{ByteIo, IResult, ok, err, error, failure, eof, too_large, ◌>>=◌}
use ddns.VarInt.{of_u32, be_varint, put_varint}
use ddns.Endpoint.Defs.{
  SocketAddr, v4, v6, EndpointSignature, EndpointAddr, flag_family, flag_clustered, flag_nat,
  flag_load, flag_signed, has, is_signed, set_signed, signature_length,
}
use Prim.Native.Nat.{bit_and}

infixl 5 ◌>>=?◌
abbrev pub ◌>>=?◌ : Option (List ℕ) → (List ℕ → Option (List ℕ)) → Option (List ℕ)
none >>=? f = none
some buf >>=? f = f buf

-- A list as the slice that a parser returned: `is_empty`.
abbrev pub is_empty : List ℕ → Bool
is_empty [] = true
is_empty (b ∷ bs) = false

module _ (io : ByteIo) where
  unfoldable pub put_socket_addr : List ℕ → SocketAddr → List ℕ
  put_socket_addr buf (v4 ip port) = io.put_u32 (io.put_u16 buf port) ip
  put_socket_addr buf (v6 ip port flow scope) = io.put_u128 (io.put_u16 buf port) ip

  abbrev pub put_sequence : List ℕ → Option ℕ → Option (List ℕ)
  put_sequence buf (some sequence) = put_varint io buf (of_u32 sequence)
  put_sequence buf none = some buf

  abbrev pub put_agent : List ℕ → Option SocketAddr → List ℕ
  put_agent buf (some agent) = put_socket_addr buf agent
  put_agent buf none = buf

  abbrev pub put_load : List ℕ → Option ℕ → List ℕ
  put_load buf (some load) = io.put_u32 buf load
  put_load buf none = buf

  unfoldable pub write_base : List ℕ → EndpointAddr → Option (List ℕ)
  write_base buf e = put_sequence (io.put_u8 buf e.flags) e.sequence >>=? λ buf.
      some (put_load (put_agent (put_socket_addr buf e.primary) e.agent) e.load)

  abbrev pub put_signature : List ℕ → Bool → Option EndpointSignature → Option (List ℕ)
  put_signature buf true (some sig) =
      put_varint io (io.put_u16 buf sig.scheme) (signature_length sig.signature) >>=? λ buf.
      some (io.put_slice buf sig.signature)
  put_signature buf _ _ = some buf

  unfoldable pub put_endpoint_addr : List ℕ → EndpointAddr → Option (List ℕ)
  put_endpoint_addr buf e = write_base buf e >>=? λ buf. put_signature buf (is_signed e) e.signature

  -- What a signature covers: the record with the flag set and without a signature.
  unfoldable pub signed_data : EndpointAddr → Option (List ℕ)
  signed_data e = write_base [] (record (set_signed e true) { signature = none })

  unfoldable pub be_socket_addr_v4 : List ℕ → IResult SocketAddr
  be_socket_addr_v4 input = do
    (remain, port) ← io.be_u16 input
    (remain, ip) ← io.be_u32 remain
    ok (remain, v4 ip port)

  unfoldable pub be_socket_addr_v6 : List ℕ → IResult SocketAddr
  be_socket_addr_v6 input = do
    (remain, port) ← io.be_u16 input
    (remain, ip) ← io.be_u128 remain
    ok (remain, v6 ip port 0 0)

  abbrev pub be_socket_addr : Bool → List ℕ → IResult SocketAddr
  be_socket_addr ipv6 input = if ipv6 then be_socket_addr_v6 input else be_socket_addr_v4 input

  -- The length of a signature always fits a `usize` of 64 bits.
  unfoldable pub be_endpoint_signature : List ℕ → ℕ → IResult (Option EndpointSignature)
  be_endpoint_signature input flags =
      let read = (do
        (remain, scheme) ← io.be_u16 input
        (remain, sig_len) ← be_varint io remain
        (remain, sig) ← io.take sig_len.value remain
        ok (remain, some (record { scheme = scheme; signature = sig }))) in
      if bit_and flags flag_signed == flag_signed
      then read
      else if is_empty input
      then ok (input, none)
      else err (error input eof)

  unfoldable pub be_agent : Bool → Bool → List ℕ → IResult (Option SocketAddr)
  be_agent nat ipv6 input =
      let read = (do (remain, addr) ← be_socket_addr ipv6 input; ok (remain, some addr)) in
      if nat then read else ok (input, none)

  unfoldable pub be_load : Bool → List ℕ → IResult (Option ℕ)
  be_load has_load input =
      let read = (do (remain, load) ← io.be_u32 input; ok (remain, some load)) in
      if has_load then read else ok (input, none)

  module _ (try_sequence : ℕ → Option ℕ) where
    unfoldable pub be_sequence : Bool → List ℕ → IResult (Option ℕ)
    be_sequence clustered input =
        let read = (do
          (remain, seq) ← be_varint io input
          elim (try_sequence seq.value) [
            | some sequence ↦ ok (remain, some sequence)
            | none ↦ err (failure remain too_large)
          ]) in
        if clustered then read else ok (input, none)

    unfoldable pub be_endpoint_addr : List ℕ → IResult EndpointAddr
    unfolding be_sequence be_agent be_load
    be_endpoint_addr input = do
      (remain, flags) ← io.be_u8 input
      (remain, sequence) ← be_sequence (has flags flag_clustered) remain
      (remain, primary) ← be_socket_addr (has flags flag_family) remain
      (remain, agent) ← be_agent (has flags flag_nat) (has flags flag_family) remain
      (remain, load) ← be_load (has flags flag_load) remain
      (remain, signature) ← be_endpoint_signature remain flags
      ok (
        remain,
        record {
          flags = flags;
          sequence = sequence;
          load = load;
          signature = signature;
          primary = primary;
          agent = agent;
        },
      )
