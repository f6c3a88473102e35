-- ===== src/Candidates/Examples.antt =====
-- Keys and addresses that keep the laws, for tests: a key is its sequence and the byte of its flag, an
-- address its family, number and port.
use ddns.Prelude.{ℕ, refl, true, ◌==◌, if◌then◌else◌, nat_eq, pair_eq, List, [], ◌∷◌, none}
use ddns.Endpoint.Defs.{SocketAddr, v4, v6, direct_v4, set_main, set_sequence}
use ddns.Candidates.Defs.{ChainKeys, Transport, TaggedEndpointCandidate}

abbrev head : List ℕ → ℕ
head [] = 0
head (b ∷ bs) = b

abbrev pub simple_keys : ChainKeys
simple_keys = record {
  Key = ℕ × ℕ;
  Usage = ℕ;
  client_and_server = 0x30;
  client_only = 0x31;
  new = λ s u. (s, u);
  sequence = λ k. k.0;
  kind_flag = λ k. k.1 ∷ [];
  key_eq = pair_eq nat_eq nat_eq;
  sequence_new = λ s u. refl;
  flag_primary = λ s. refl;
  flag_secondary = λ s. refl;
  key_known = λ a b number flag i. (number i, head (flag i));
}

abbrev as_address : SocketAddr → ℕ × (ℕ × ℕ)
as_address (v4 ip port) = (4, (ip, port))
as_address (v6 ip port flow scope) = (6, (ip, port))

abbrev pub simple_transport : Transport
simple_transport = record {
  Addr = ℕ × (ℕ × ℕ);
  direct = as_address;
  mediate = λ outer agent. as_address outer;
  addr = λ a. if a.0 == 4 then v4 a.1.0 a.1.1 else v6 a.1.0 a.1.1 0 0;
  addr_eq = pair_eq nat_eq (pair_eq nat_eq nat_eq);
}

-- A record of a primary certificate with the sequence, from a source.
abbrev pub candidate : ℕ → ℕ → ℕ → TaggedEndpointCandidate (ℕ × ℕ) ℕ
candidate source port sequence = record {
  tag = source;
  dns_record = set_sequence (set_main (direct_v4 0x7f000001 port) true) sequence;
  fallback_chain_key = none;
}
