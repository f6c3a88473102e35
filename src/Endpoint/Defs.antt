-- ===== src/Endpoint/Defs.antt =====
-- The structs of an E record, its constructors and setters. An address is its numbers: an IPv6
-- address that is parsed has flow information and scope 0, and the printer leaves them out. A load is
-- the 32 bits of its `f32`, by which the code compares it.
use Prim.Native.Nat.{bit_and, bit_or}
use ddns.Prelude.{ℕ, ◌+◌, ◌-◌, ◌*◌, Bool, true, false, not}
use ddns.Prelude.{List, Option, none, some, ltb, ◌==◌, if◌then◌else◌, length}
use ddns.VarInt.{VarInt, of_u32, of_u64, encoding_size, fits, overflows}

-- `SocketAddrV4` and `SocketAddrV6`: the numbers of the IP address and the port. The flow
-- information and the scope of an IPv6 address are part of the type and not of a record.
pub data SocketAddr : Type 0 where
  v4 : ℕ → ℕ → SocketAddr
  v6 : ℕ → ℕ → ℕ → ℕ → SocketAddr

pub record EndpointSignature : Type 0 where
  pub scheme : ℕ
  pub signature : List ℕ

pub record EndpointAddr : Type 0 where
  pub flags : ℕ
  pub sequence : Option ℕ
  pub load : Option ℕ
  pub signature : Option EndpointSignature
  pub primary : SocketAddr
  pub agent : Option SocketAddr

abbrev pub flag_family : ℕ
flag_family = 0b1000_0000

abbrev pub flag_main : ℕ
flag_main = 0b0100_0000

abbrev pub flag_clustered : ℕ
flag_clustered = 0b0010_0000

abbrev pub flag_nat : ℕ
flag_nat = 0b0001_0000

abbrev pub flag_load : ℕ
flag_load = 0b0000_1000

abbrev pub flag_signed : ℕ
flag_signed = 0b0000_0001

-- `flags & FLAG != 0`
abbrev pub has : ℕ → ℕ → Bool
has flags flag = not (bit_and flags flag == 0)

-- `flags |= FLAG` and `flags &= !FLAG`, on a byte.
abbrev pub set_flag : ℕ → ℕ → Bool → ℕ
set_flag flags flag on = if on then bit_or flags flag else bit_and flags (255 - flag)

-- `direct_v4` and `direct_v6` (an address of the family, no agent); `nat_v4` and `nat_v6`.
abbrev plain : ℕ → SocketAddr → Option SocketAddr → EndpointAddr
plain flags primary agent = record {
  flags = flags;
  sequence = none;
  load = none;
  signature = none;
  primary = primary;
  agent = agent;
}

unfoldable pub direct_v4 : ℕ → ℕ → EndpointAddr
direct_v4 ip port = plain 0 (v4 ip port) none

unfoldable pub direct_v6 : ℕ → ℕ → ℕ → ℕ → EndpointAddr
direct_v6 ip port flow scope = plain flag_family (v6 ip port flow scope) none

unfoldable pub nat_v4 : (ip port agent_ip agent_port : ℕ) → EndpointAddr
nat_v4 ip port agent_ip agent_port = plain flag_nat (v4 ip port) (some (v4 agent_ip agent_port))

unfoldable pub nat_v6 :
    (ip port flow scope agent_ip agent_port agent_flow agent_scope : ℕ) → EndpointAddr
nat_v6 ip port flow scope agent_ip agent_port agent_flow agent_scope =
    plain (bit_or flag_family flag_nat) (v6 ip port flow scope)
      (some (v6 agent_ip agent_port agent_flow agent_scope))

unfoldable pub is_ipv6 : EndpointAddr → Bool
is_ipv6 e = has e.flags flag_family

unfoldable pub is_nat : EndpointAddr → Bool
is_nat e = has e.flags flag_nat

unfoldable pub is_clustered : EndpointAddr → Bool
is_clustered e = has e.flags flag_clustered

unfoldable pub is_load : EndpointAddr → Bool
is_load e = has e.flags flag_load

unfoldable pub is_main : EndpointAddr → Bool
is_main e = bit_and e.flags flag_main == flag_main

unfoldable pub is_signed : EndpointAddr → Bool
is_signed e = bit_and e.flags flag_signed == flag_signed

unfoldable pub set_clustered : EndpointAddr → Bool → EndpointAddr
set_clustered e clustered =
    if clustered
    then record e { flags = set_flag e.flags flag_clustered true }
    else record e { flags = set_flag e.flags flag_clustered false; sequence = none }

unfoldable pub set_load : EndpointAddr → Option ℕ → EndpointAddr
set_load e (some load) = record e { load = some load; flags = set_flag e.flags flag_load true }
set_load e none = record e { load = none; flags = set_flag e.flags flag_load false }

unfoldable pub set_main : EndpointAddr → Bool → EndpointAddr
set_main e main = record e { flags = set_flag e.flags flag_main main }

unfoldable pub set_signed : EndpointAddr → Bool → EndpointAddr
set_signed e signed = record e { flags = set_flag e.flags flag_signed signed }

unfoldable pub set_sequence : EndpointAddr → ℕ → EndpointAddr
unfolding set_clustered
set_sequence e sequence =
    if ltb 0 sequence
    then set_clustered (record e { sequence = some sequence }) true
    else set_clustered (record e { sequence = none }) false

unfoldable pub normalized_sequence : EndpointAddr → ℕ
normalized_sequence e = elim e.sequence [ some sequence ↦ sequence | none ↦ 0 ]

-- `VarInt::try_from(len).unwrap_or(VarInt::from_u32(0))`
unfoldable pub signature_length : List ℕ → VarInt
signature_length signature = elim (of_u64 (length signature)) [
  | fits len ↦ len
  | overflows _ ↦ of_u32 0
]

-- `encpding_size`; a `none` is a panic of `encoding_size`.
infixl 65 ◌+?◌
abbrev pub ◌+?◌ : Option ℕ → Option ℕ → Option ℕ
none +? b = none
some a +? none = none
some a +? some b = some (a + b)

abbrev pub sequence_size : Option ℕ → Option ℕ
sequence_size (some sequence) = encoding_size (of_u32 sequence)
sequence_size none = some 0

abbrev pub load_size : Option ℕ → ℕ
load_size (some load) = 4
load_size none = 0

abbrev pub signature_size : Bool → Option EndpointSignature → Option ℕ
signature_size true (some sig) =
    some 2 +? encoding_size (signature_length sig.signature) +? some (length sig.signature)
signature_size _ _ = some 0

unfoldable pub encpding_size : EndpointAddr → Option ℕ
encpding_size e =
    let address = if is_ipv6 e then 2 + 16 else 2 + 4 in
    some 1
    +? sequence_size e.sequence
    +? some (load_size e.load)
    +? signature_size (is_signed e) e.signature
    +? some (if is_nat e then address * 2 else address)
