-- ===== src/Candidates/Defs.antt =====
-- The certificate chain keys, the transport addresses of the records, and the loop that groups them.
-- The types `CertificateChainKey` of dhttp_home and `EndpointAddr` of qresolve are not part of the
-- repository: `ChainKeys` and `Transport` have what the code calls of them.
use ddns.Prelude.{ℕ, ◌≡◌, Bool, true, false, not, ◌||◌, Eq, List, [], ◌∷◌, ◌++◌, Option, none, some}
use ddns.Prelude.{if◌then◌else◌}
use ddns.Name.{Name}
use ddns.Name.Defs.{name_eq}
use ddns.Endpoint.Defs.{SocketAddr, v4, v6, EndpointAddr, is_main, normalized_sequence}

-- `CertificateChainKey` with its `new`, `sequence`, `usage().kind_flag()` and equality, and the two
-- constructors of `CertificateUsage`. The laws: a key has the sequence and the flag it was made with,
-- and is known by these.
pub record ChainKeys : Type 1 where
  pub Key : Type 0
  pub Usage : Type 0
  pub client_and_server : Usage
  pub client_only : Usage
  pub new : ℕ → Usage → Key
  pub sequence : Key → ℕ
  pub kind_flag : Key → Name
  pub key_eq : Eq Key
  pub sequence_new : (s : ℕ) (u : Usage) → sequence (new s u) ≡ s
  pub flag_primary : (s : ℕ) → kind_flag (new s client_and_server) ≡ 0x30 ∷ []
  pub flag_secondary : (s : ℕ) → kind_flag (new s client_only) ≡ 0x31 ∷ []
  pub key_known : (a b : Key) → sequence a ≡ sequence b → kind_flag a ≡ kind_flag b → a ≡ b

-- `qresolve::EndpointAddr`: the two variants that the code makes, `addr` and equality.
pub record Transport : Type 1 where
  pub Addr : Type 0
  pub direct : SocketAddr → Addr
  pub mediate : SocketAddr → SocketAddr → Addr
  pub addr : Addr → SocketAddr
  pub addr_eq : Eq Addr

abbrev pub primary_kind_flag : Name
primary_kind_flag = 0x30 ∷ []

-- A record of an answer with its source, and the key of the packet's signer where it is known.
pub record TaggedEndpointCandidate (Key T : Type 0) : Type 0 where
  pub tag : T
  pub dns_record : EndpointAddr
  pub fallback_chain_key : Option Key

module _ (keys : ChainKeys) where
  -- `chain_key` is called with the two flags, and takes the usage of each.
  unfoldable pub primary_chain_key : ℕ → keys.Key
  primary_chain_key sequence = keys.new sequence keys.client_and_server

  unfoldable pub secondary_chain_key : ℕ → keys.Key
  secondary_chain_key sequence = keys.new sequence keys.client_only

  unfoldable pub is_primary_chain_key : keys.Key → Bool
  is_primary_chain_key chain_key = name_eq (keys.kind_flag chain_key) primary_kind_flag

  unfoldable pub certificate_chain_key : EndpointAddr → keys.Key
  certificate_chain_key e =
      if is_main e
      then primary_chain_key (normalized_sequence e)
      else secondary_chain_key (normalized_sequence e)

  unfoldable pub effective_chain_key : EndpointAddr → Option keys.Key → keys.Key
  effective_chain_key e fallback =
      let own = certificate_chain_key e in
      if is_main e || (elim e.sequence [ some _ ↦ true | none ↦ false ])
      then own
      else elim fallback [ some key ↦ key | none ↦ own ]

-- `DquicEndpointAddr::try_from` of a record: the addresses of a NAT record are of one family.
module _ (transport : Transport) where
  abbrev mediated : SocketAddr → SocketAddr → Option transport.Addr
  mediated (v4 ip port) (v4 agent_ip agent_port) =
      some (transport.mediate (v4 ip port) (v4 agent_ip agent_port))
  mediated (v6 ip port flow scope) (v6 agent_ip agent_port agent_flow agent_scope) =
      some
        (transport.mediate (v6 ip port flow scope) (v6 agent_ip agent_port agent_flow agent_scope))
  mediated _ _ = none

  unfoldable pub try_from : EndpointAddr → Option transport.Addr
  try_from e = elim e.agent [
    | none ↦ some (transport.direct e.primary)
    | some agent_addr ↦ mediated e.primary agent_addr
  ]

abbrev pub EndpointCandidateGroups : ChainKeys → Transport → Type 0 → Type 0
EndpointCandidateGroups keys transport T = List (keys.Key × List (T × transport.Addr))

module _ (keys : ChainKeys) (transport : Transport) {T : Type 0} where
  -- The endpoint joins the first group with its key, or makes a new last group.
  unfoldable pub push_endpoint :
      keys.Key
      → T × transport.Addr
      → EndpointCandidateGroups keys transport T
      → EndpointCandidateGroups keys transport T
  push_endpoint chain_key endpoint [] = (chain_key, endpoint ∷ []) ∷ []
  push_endpoint chain_key endpoint ((key, endpoints) ∷ groups) =
      let rest = push_endpoint chain_key endpoint groups in
      if keys.key_eq.beq key chain_key
      then (key, endpoints ++ (endpoint ∷ [])) ∷ groups
      else (key, endpoints) ∷ rest

  -- The body of the loop: what is not of a primary certificate, or has no transport address, is left out.
  unfoldable pub group_candidate :
      EndpointCandidateGroups keys transport T
      → TaggedEndpointCandidate keys.Key T
      → EndpointCandidateGroups keys transport T
  group_candidate groups c =
      let chain_key = effective_chain_key keys c.dns_record c.fallback_chain_key in
      if not (is_primary_chain_key keys chain_key)
      then groups
      else elim (try_from transport c.dns_record) [
        | none ↦ groups
        | some endpoint ↦ push_endpoint chain_key (c.tag, endpoint) groups
      ]

  unfoldable pub group_from :
      EndpointCandidateGroups keys transport T
      → List (TaggedEndpointCandidate keys.Key T)
      → EndpointCandidateGroups keys transport T
  group_from groups [] = groups
  group_from groups (c ∷ cs) = group_from (group_candidate groups c) cs

  unfoldable pub grouped_endpoint_candidates :
      List (TaggedEndpointCandidate keys.Key T) → EndpointCandidateGroups keys transport T
  grouped_endpoint_candidates records = group_from [] records
