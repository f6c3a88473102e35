-- ===== src/Endpoint/Fields.antt =====
-- What an E record has to be to be written and read: the numbers fit their types and every optional
-- field is there exactly if its flag is set. The bytes of the fields, and their parsers on them.
use ddns.Prelude.{ℕ, ◌≡◌, refl, arith, ◌<◌, ◌^◌, Bool, true, false, List, [], ◌++◌}
use ddns.Prelude.{append_assoc, append-nil, Option, none, some}
use ddns.Bytes.{ok, be_bytes, read_be-be_bytes}
use ddns.Bytes.Standard.{standard}
use ddns.VarInt.{of_u32}
use ddns.VarInt.RoundTrip.{encoding, put_varint-standard, be_varint-encoding}
use ddns.Endpoint.Defs.{SocketAddr, v4, v6}
use ddns.Endpoint.Wire.{
  put_socket_addr, put_sequence, put_agent, put_load, be_socket_addr, be_socket_addr_v4,
  be_socket_addr_v6, be_sequence, be_agent, be_load,
}

-- An optional field that is there exactly if its flag says so.
unfoldable pub Field : {A : Type 0} → (A → Type 0) → Bool → Option A → Type 0
Field P true (some x) = P x
Field P false none = Unit
Field P true none = ⊥
Field P false (some x) = ⊥

-- An address of the family that the flag says, whose every part is written: the flow info and the scope of
-- an IPv6 address are not, and are 0 here.
unfoldable pub IsWireAddr : Bool → SocketAddr → Type 0
IsWireAddr false (v4 ip port) = (ip < 2 ^ 32) × (port < 2 ^ 16)
IsWireAddr true (v6 ip port flow scope) =
    (ip < 2 ^ 128) × (port < 2 ^ 16) × (flow ≡ 0) × (scope ≡ 0)
IsWireAddr true (v4 ip port) = ⊥
IsWireAddr false (v6 ip port flow scope) = ⊥

unfoldable pub addr_bytes : SocketAddr → List ℕ
addr_bytes (v4 ip port) = be_bytes 2 port ++ be_bytes 4 ip
addr_bytes (v6 ip port flow scope) = be_bytes 2 port ++ be_bytes 16 ip

pub put_socket_addr-standard :
    (buf : List ℕ) (a : SocketAddr) → put_socket_addr standard buf a ≡ buf ++ addr_bytes a
unfolding put_socket_addr addr_bytes
put_socket_addr-standard buf (v4 ip port) = simp append_assoc
put_socket_addr-standard buf (v6 ip port flow scope) = simp append_assoc

pub be_socket_addr-bytes :
    (family : Bool) (a : SocketAddr) (rest : List ℕ)
    → IsWireAddr family a
    → be_socket_addr standard family (addr_bytes a ++ rest) ≡ ok (rest, a)
unfolding IsWireAddr addr_bytes be_socket_addr_v4 be_socket_addr_v6
be_socket_addr-bytes false (v4 ip port) rest h =
    simp append_assoc (rw (read_be-be_bytes 2 port _ h.1, read_be-be_bytes 4 ip rest h.0))
be_socket_addr-bytes true (v6 ip port flow scope) rest h = simp append_assoc (
    let (hi, hp, hf, hs) = h in
    rw (read_be-be_bytes 2 port _ hp, read_be-be_bytes 16 ip rest hi, hf, hs))
be_socket_addr-bytes true (v4 ip port) rest h = absurd h
be_socket_addr-bytes false (v6 ip port flow scope) rest h = absurd h

unfoldable pub sequence_bytes : Option ℕ → List ℕ
sequence_bytes (some sequence) = encoding sequence
sequence_bytes none = []

unfoldable pub agent_bytes : Option SocketAddr → List ℕ
agent_bytes (some agent) = addr_bytes agent
agent_bytes none = []

unfoldable pub load_bytes : Option ℕ → List ℕ
load_bytes (some load) = be_bytes 4 load
load_bytes none = []

-- A sequence number is a `u32` that the type of certificate sequences has.
unfoldable pub IsSequence : (ℕ → Option ℕ) → ℕ → Type 0
IsSequence try_sequence s = (s < 2 ^ 32) × (try_sequence s ≡ some s)

module _ (try_sequence : ℕ → Option ℕ) where
  pub put_sequence-standard :
      (flag : Bool) (buf : List ℕ) (s : Option ℕ)
      → Field (IsSequence try_sequence) flag s
      → put_sequence standard buf s ≡ some (buf ++ sequence_bytes s)
  unfolding Field IsSequence sequence_bytes of_u32
  put_sequence-standard true buf (some s) h = put_varint-standard buf _ (omega (arith, h.0))
  put_sequence-standard false buf none h = rw (append-nil buf)
  put_sequence-standard true buf none h = absurd h
  put_sequence-standard false buf (some s) h = absurd h

  pub be_sequence-bytes :
      (flag : Bool) (s : Option ℕ) (rest : List ℕ)
      → Field (IsSequence try_sequence) flag s
      → be_sequence standard try_sequence flag (sequence_bytes s ++ rest) ≡ ok (rest, s)
  unfolding Field IsSequence sequence_bytes be_sequence
  be_sequence-bytes true (some s) rest h = rw (be_varint-encoding s rest (omega (arith, h.0)), h.1)
  be_sequence-bytes false none rest h = refl
  be_sequence-bytes true none rest h = absurd h
  be_sequence-bytes false (some s) rest h = absurd h

pub be_agent-bytes :
    (flag family : Bool) (a : Option SocketAddr) (rest : List ℕ)
    → Field (IsWireAddr family) flag a
    → be_agent standard flag family (agent_bytes a ++ rest) ≡ ok (rest, a)
unfolding Field agent_bytes be_agent
be_agent-bytes true family (some a) rest h = rw (be_socket_addr-bytes family a rest h)
be_agent-bytes false family none rest h = refl
be_agent-bytes true family none rest h = absurd h
be_agent-bytes false family (some a) rest h = absurd h

pub be_load-bytes :
    (flag : Bool) (l : Option ℕ) (rest : List ℕ)
    → Field (λ l. l < 2 ^ 32) flag l
    → be_load standard flag (load_bytes l ++ rest) ≡ ok (rest, l)
unfolding Field load_bytes be_load
be_load-bytes true (some l) rest h = rw (read_be-be_bytes 4 l rest h)
be_load-bytes false none rest h = refl
be_load-bytes true none rest h = absurd h
be_load-bytes false (some l) rest h = absurd h

pub put_agent-standard :
    (buf : List ℕ) (a : Option SocketAddr) → put_agent standard buf a ≡ buf ++ agent_bytes a
unfolding agent_bytes
put_agent-standard buf (some a) = put_socket_addr-standard buf a
put_agent-standard buf none = rw (append-nil buf)

pub put_load-standard :
    (buf : List ℕ) (l : Option ℕ) → put_load standard buf l ≡ buf ++ load_bytes l
unfolding load_bytes
put_load-standard buf (some l) = refl
put_load-standard buf none = rw (append-nil buf)
