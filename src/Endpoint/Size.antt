-- ===== src/Endpoint/Size.antt =====
-- The length of the bytes of an E record, field by field, against `encpding_size`.
use ddns.Prelude.{ℕ, ◌≡◌, refl, arith, ◌+◌, Bool, true, false, ◌++◌}
use ddns.Prelude.{length, length-append, Option, none, some, if◌then◌else◌}
use ddns.Bytes.{be_bytes, length-be_bytes}
use ddns.VarInt.{of_u32}
use ddns.VarInt.RoundTrip.{encoding, length-encoding}
use ddns.Endpoint.Defs.{
  SocketAddr, v4, v6, EndpointSignature, sequence_size, load_size, signature_size,
}
use ddns.Endpoint.Fields.{
  Field, IsWireAddr, IsSequence, addr_bytes, sequence_bytes, agent_bytes, load_bytes,
}
use ddns.Endpoint.Signature.{IsSignature, signature_bytes, signature_length-fits}

pub length-addr_bytes :
    (family : Bool) (a : SocketAddr)
    → IsWireAddr family a
    → length (addr_bytes a) ≡ (if family then 2 + 16 else 2 + 4)
unfolding IsWireAddr addr_bytes
length-addr_bytes false (v4 ip port) h = omega (
  arith,
  length-append (be_bytes 2 port) (be_bytes 4 ip),
  length-be_bytes 2 port,
  length-be_bytes 4 ip,
)
length-addr_bytes true (v6 ip port flow scope) h = omega (
  arith,
  length-append (be_bytes 2 port) (be_bytes 16 ip),
  length-be_bytes 2 port,
  length-be_bytes 16 ip,
)
length-addr_bytes true (v4 ip port) h = absurd h
length-addr_bytes false (v6 ip port flow scope) h = absurd h

pub length-sequence_bytes :
    (try_sequence : ℕ → Option ℕ) (flag : Bool) (s : Option ℕ)
    → Field (IsSequence try_sequence) flag s
    → sequence_size s ≡ some (length (sequence_bytes s))
unfolding Field IsSequence sequence_bytes of_u32
length-sequence_bytes try_sequence true (some s) h = length-encoding _ (omega (arith, h.0))
length-sequence_bytes try_sequence false none h = refl
length-sequence_bytes try_sequence true none h = absurd h
length-sequence_bytes try_sequence false (some s) h = absurd h

pub length-load_bytes : (l : Option ℕ) → load_size l ≡ length (load_bytes l)
unfolding load_bytes
length-load_bytes (some l) = omega (arith, length-be_bytes 4 l)
length-load_bytes none = refl

pub length-agent_bytes :
    (flag family : Bool) (a : Option SocketAddr)
    → Field (IsWireAddr family) flag a
    → length (agent_bytes a) ≡ (if flag then (if family then 2 + 16 else 2 + 4) else 0)
unfolding Field agent_bytes
length-agent_bytes true family (some a) h = length-addr_bytes family a h
length-agent_bytes false family none h = refl
length-agent_bytes true family none h = absurd h
length-agent_bytes false family (some a) h = absurd h

pub length-signature_bytes :
    (flag : Bool) (sig : Option EndpointSignature)
    → Field IsSignature flag sig
    → signature_size flag sig ≡ some (length (signature_bytes sig))
unfolding Field IsSignature signature_bytes
length-signature_bytes true (some sig) h =
    rw
      (
        signature_length-fits sig.signature h.1,
        length-encoding (record { value = length sig.signature }) h.1,
        length-append (be_bytes 2 sig.scheme) (encoding (length sig.signature) ++ sig.signature),
        length-append (encoding (length sig.signature)) sig.signature,
        length-be_bytes 2 sig.scheme,
      )
      (ground arith)
length-signature_bytes false none h = refl
length-signature_bytes true none h = absurd h
length-signature_bytes false (some sig) h = absurd h
