-- ===== src/Endpoint/Scope.antt =====
-- What is not written of a record: the flow info and the scope of its IPv6 addresses.
use ddns.Prelude.{ℕ, ◌≡◌, refl, ap, ◌<◌, ◌^◌, Bool, true, false, List, Option, none, some}
use mathlib.Core.Path.{fun_ext}
use ddns.Bytes.Standard.{standard}
use ddns.Endpoint.Defs.{SocketAddr, v4, v6, EndpointAddr, is_signed, is_ipv6, is_nat, encpding_size}
use ddns.Endpoint.Wire.{
  put_socket_addr, put_agent, put_sequence, ◌>>=?◌, write_base, put_endpoint_addr,
}
use ddns.Endpoint.Fields.{IsWireAddr}

-- An address of the family that the flag says, with numbers that fit their types.
unfoldable pub IsAddr : Bool → SocketAddr → Type 0
IsAddr false (v4 ip port) = (ip < 2 ^ 32) × (port < 2 ^ 16)
IsAddr true (v6 ip port flow scope) =
    (ip < 2 ^ 128) × (port < 2 ^ 16) × (flow < 2 ^ 32) × (scope < 2 ^ 32)
IsAddr true (v4 ip port) = ⊥
IsAddr false (v6 ip port flow scope) = ⊥

unfoldable pub wire_addr : SocketAddr → SocketAddr
wire_addr (v4 ip port) = v4 ip port
wire_addr (v6 ip port flow scope) = v6 ip port 0 0

unfoldable pub wire_agent : Option SocketAddr → Option SocketAddr
wire_agent none = none
wire_agent (some agent) = some (wire_addr agent)

-- The record with the flow info and the scope of each IPv6 address 0, and all else the same.
unfoldable pub wired : EndpointAddr → EndpointAddr
wired e = record e { primary = wire_addr e.primary; agent = wire_agent e.agent }

pub IsAddr-wire_addr :
    (family : Bool) (a : SocketAddr) → IsAddr family a → IsWireAddr family (wire_addr a)
unfolding IsAddr IsWireAddr wire_addr
IsAddr-wire_addr false (v4 ip port) h = h
IsAddr-wire_addr true (v6 ip port flow scope) h = (h.0, h.1, refl, refl)
IsAddr-wire_addr true (v4 ip port) h = absurd h
IsAddr-wire_addr false (v6 ip port flow scope) h = absurd h

put_socket_addr-wire_addr :
    (buf : List ℕ) (a : SocketAddr)
    → put_socket_addr standard buf (wire_addr a) ≡ put_socket_addr standard buf a
unfolding put_socket_addr wire_addr
put_socket_addr-wire_addr buf (v4 ip port) = refl
put_socket_addr-wire_addr buf (v6 ip port flow scope) = refl

put_agent-wire_agent :
    (buf : List ℕ) (a : Option SocketAddr)
    → put_agent standard buf (wire_agent a) ≡ put_agent standard buf a
unfolding wire_agent
put_agent-wire_agent buf none = refl
put_agent-wire_agent buf (some a) = put_socket_addr-wire_addr buf a

write_base-wired :
    (buf : List ℕ) (e : EndpointAddr)
    → write_base standard buf (wired e) ≡ write_base standard buf e
unfolding write_base wired
write_base-wired buf e =
    ap (λ f. put_sequence standard (standard.put_u8 buf e.flags) e.sequence >>=? f)
      (fun_ext (λ written. rw (
        put_socket_addr-wire_addr written e.primary,
        put_agent-wire_agent (put_socket_addr standard written e.primary) e.agent,
      )))

pub put_endpoint_addr-wired :
    (buf : List ℕ) (e : EndpointAddr)
    → put_endpoint_addr standard buf (wired e) ≡ put_endpoint_addr standard buf e
unfolding put_endpoint_addr wired is_signed
put_endpoint_addr-wired buf e = rw (write_base-wired buf e)

pub encpding_size-wired : (e : EndpointAddr) → encpding_size (wired e) ≡ encpding_size e
unfolding encpding_size wired is_ipv6 is_nat is_signed
encpding_size-wired e = refl
