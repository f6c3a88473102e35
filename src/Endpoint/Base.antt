-- ===== src/Endpoint/Base.antt =====
-- The well-formed E records, and what the printer and the parser do to all fields but the signature.
use ddns.Prelude.{ℕ, ◌≡◌, arith, ◌<◌, ◌^◌, ◌+◌, List, ◌++◌}
use ddns.Prelude.{append_assoc, length, length-append, Option, some, if◌then◌else◌, ◌*◌}
use ddns.Bytes.{ok, ◌>>=◌, be_bytes, length-be_bytes, read_be-be_bytes}
use ddns.Bytes.Standard.{standard}
use ddns.Endpoint.Defs.{EndpointAddr, is_ipv6, is_clustered, is_nat, is_load, is_signed, load_size}
use ddns.Endpoint.Wire.{write_base, be_endpoint_addr, be_endpoint_signature}
use ddns.Endpoint.Fields.{
  Field, IsWireAddr, IsSequence, addr_bytes, sequence_bytes, agent_bytes, load_bytes,
  put_socket_addr-standard, put_sequence-standard, put_agent-standard, put_load-standard,
  be_socket_addr-bytes, be_sequence-bytes, be_agent-bytes, be_load-bytes,
}
use ddns.Endpoint.Signature.{IsSignature, signature_bytes}
use ddns.Endpoint.Size.{length-addr_bytes, length-agent_bytes, length-load_bytes}

-- The numbers of a record but for its signature: the flags are a byte, each optional field is there
-- exactly if its flag is set, and both addresses are of the family of the flags, with the flow info and the
-- scope of an IPv6 address 0.
pub record IsBase (try_sequence : ℕ → Option ℕ) (e : EndpointAddr) : Type 0 where
  pub flags_fit : e.flags < 256
  pub sequence_fits : Field (IsSequence try_sequence) (is_clustered e) e.sequence
  pub primary_fits : IsWireAddr (is_ipv6 e) e.primary
  pub agent_fits : Field (IsWireAddr (is_ipv6 e)) (is_nat e) e.agent
  pub load_fits : Field (λ load. load < 2 ^ 32) (is_load e) e.load

-- The signature is there exactly if its flag is set.
pub record IsEndpoint (try_sequence : ℕ → Option ℕ) (e : EndpointAddr) : Type 0 where
  pub base : IsBase try_sequence e
  pub signature_fits : Field IsSignature (is_signed e) e.signature

-- The bytes of a record before its signature.
unfoldable pub base_bytes : EndpointAddr → List ℕ
base_bytes e =
    be_bytes 1 e.flags
    ++ (sequence_bytes e.sequence
        ++ (addr_bytes e.primary ++ (agent_bytes e.agent ++ load_bytes e.load)))

unfoldable pub wire : EndpointAddr → List ℕ
wire e = base_bytes e ++ signature_bytes e.signature

module _ (try_sequence : ℕ → Option ℕ) (e : EndpointAddr) (valid : IsBase try_sequence e) where
  pub write_base-standard : (buf : List ℕ) → write_base standard buf e ≡ some (buf ++ base_bytes e)
  unfolding write_base base_bytes
  write_base-standard buf =
      rw
        (
          put_sequence-standard try_sequence (is_clustered e) (buf ++ be_bytes 1 e.flags) e.sequence
              valid.sequence_fits,
          put_socket_addr-standard (buf ++ be_bytes 1 e.flags ++ sequence_bytes e.sequence)
              e.primary,
          put_agent-standard _ e.agent,
          put_load-standard _ e.load,
        )
        (simp append_assoc)

  pub be_endpoint_addr-base :
      (rest : List ℕ)
      → be_endpoint_addr standard try_sequence (base_bytes e ++ rest) ≡ (
          be_endpoint_signature standard rest e.flags >>= λ p.
          ok (p.0, record e { signature = p.1 }))
  unfolding be_endpoint_addr base_bytes is_clustered is_ipv6 is_nat is_load
  be_endpoint_addr-base rest = simp append_assoc (
      rw (
        read_be-be_bytes 1 e.flags _ valid.flags_fit,
        be_sequence-bytes try_sequence (is_clustered e) e.sequence _ valid.sequence_fits,
        be_socket_addr-bytes (is_ipv6 e) e.primary _ valid.primary_fits,
        be_agent-bytes (is_nat e) (is_ipv6 e) e.agent _ valid.agent_fits,
        be_load-bytes (is_load e) e.load _ valid.load_fits,
      ))

  pub length-base_bytes :
      length (base_bytes e)
      ≡ 1
        + length (sequence_bytes e.sequence)
        + load_size e.load
        + (if is_nat e
            then (if is_ipv6 e then 2 + 16 else 2 + 4) * 2
            else (if is_ipv6 e then 2 + 16 else 2 + 4))
  unfolding base_bytes is_clustered is_ipv6 is_nat is_load
  length-base_bytes =
      rw
        (
          length-append (be_bytes 1 e.flags) _,
          length-append (sequence_bytes e.sequence) _,
          length-append (addr_bytes e.primary) _,
          length-append (agent_bytes e.agent) _,
          length-be_bytes 1 e.flags,
          length-addr_bytes (is_ipv6 e) e.primary valid.primary_fits,
          length-agent_bytes (is_nat e) (is_ipv6 e) e.agent valid.agent_fits,
          length-load_bytes e.load,
        )
        (ground arith)
