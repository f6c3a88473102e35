-- ===== src/Endpoint/Setters.antt =====
-- The constructors and setters of an E record, as the steps that build one.
use ddns.Prelude.{◌≡◌, refl, ℕ, ◌<◌, ◌^◌, arith, Bool, true, false, Bool-cases, inl, inr}
use ddns.Prelude.{Option, none, some, ltb}
use ddns.Endpoint.Defs.{
  v4, v6, EndpointAddr, flag_clustered, set_flag, direct_v4, direct_v6, nat_v4, nat_v6, set_main,
  set_load, set_sequence, set_clustered, is_ipv6, is_nat, is_clustered, is_load, is_signed,
}
use ddns.Endpoint.Fields.{Field, IsWireAddr, IsSequence}
use ddns.Endpoint.Scope.{IsAddr, wired, wire_agent, IsAddr-wire_addr}
use ddns.Endpoint.Flags.{main-Kept, clustered-Kept, load-Kept}
use ddns.Endpoint.Signature.{IsSignature}
use ddns.Endpoint.Base.{IsEndpoint}

-- A load that is set is the bits of an `f32`.
abbrev pub IsLoad : Option ℕ → Type 0
IsLoad (some load) = load < 2 ^ 32
IsLoad none = Unit

-- The records that the constructors and any number of setters give.
pub data Built (try_sequence : ℕ → Option ℕ) : EndpointAddr → Type 0 where
  new_direct_v4 : (ip port : ℕ) → IsAddr false (v4 ip port) → Built try_sequence (direct_v4 ip port)
  new_direct_v6 :
      (ip port flow scope : ℕ)
      → IsAddr true (v6 ip port flow scope)
      → Built try_sequence (direct_v6 ip port flow scope)
  new_nat_v4 :
      (ip port agent_ip agent_port : ℕ)
      → IsAddr false (v4 ip port)
      → IsAddr false (v4 agent_ip agent_port)
      → Built try_sequence (nat_v4 ip port agent_ip agent_port)
  new_nat_v6 :
      (ip port flow scope agent_ip agent_port agent_flow agent_scope : ℕ)
      → IsAddr true (v6 ip port flow scope)
      → IsAddr true (v6 agent_ip agent_port agent_flow agent_scope)
      → Built try_sequence (nat_v6 ip port flow scope agent_ip agent_port agent_flow agent_scope)
  then_main :
      (e : EndpointAddr) (main : Bool) → Built try_sequence e → Built try_sequence (set_main e main)
  then_load :
      (e : EndpointAddr) (load : Option ℕ)
      → IsLoad load
      → Built try_sequence e
      → Built try_sequence (set_load e load)
  then_sequence :
      (e : EndpointAddr) (sequence : ℕ)
      → IsSequence try_sequence sequence
      → Built try_sequence e
      → Built try_sequence (set_sequence e sequence)

module _ {try_sequence : ℕ → Option ℕ} where
  set_main-IsEndpoint :
      (e : EndpointAddr) (main : Bool)
      → IsEndpoint try_sequence e
      → IsEndpoint try_sequence (set_main e main)
  unfolding set_main is_ipv6 is_nat is_clustered is_load is_signed
  set_main-IsEndpoint e main valid =
      let kept = main-Kept e.flags valid.base.flags_fit main in
      record {
        base = record {
          flags_fit = kept.fits;
          sequence_fits = rw kept.clustered valid.base.sequence_fits;
          primary_fits = rw kept.family valid.base.primary_fits;
          agent_fits = rw (kept.family, kept.nat) valid.base.agent_fits;
          load_fits = rw kept.load valid.base.load_fits;
        };
        signature_fits = rw kept.sign valid.signature_fits;
      }

  -- Setting or clearing a load, and its flag with it.
  set_load-IsEndpoint :
      (e : EndpointAddr) (load : Option ℕ)
      → IsLoad load
      → IsEndpoint try_sequence e
      → IsEndpoint try_sequence (set_load e load)
  unfolding set_load is_ipv6 is_nat is_clustered is_load is_signed Field
  set_load-IsEndpoint e (some load) fits valid =
      let kept = load-Kept e.flags valid.base.flags_fit true in
      record {
        base = record {
          flags_fit = kept.fits;
          sequence_fits = rw kept.clustered valid.base.sequence_fits;
          primary_fits = rw kept.family valid.base.primary_fits;
          agent_fits = rw (kept.family, kept.nat) valid.base.agent_fits;
          load_fits = rw kept.load fits;
        };
        signature_fits = rw kept.sign valid.signature_fits;
      }
  set_load-IsEndpoint e none fits valid =
      let kept = load-Kept e.flags valid.base.flags_fit false in
      record {
        base = record {
          flags_fit = kept.fits;
          sequence_fits = rw kept.clustered valid.base.sequence_fits;
          primary_fits = rw kept.family valid.base.primary_fits;
          agent_fits = rw (kept.family, kept.nat) valid.base.agent_fits;
          load_fits = rw kept.load tt;
        };
        signature_fits = rw kept.sign valid.signature_fits;
      }

  -- The sequence number and its flag.
  clustered-IsEndpoint :
      (e : EndpointAddr) (on : Bool) (sequence : Option ℕ)
      → Field (IsSequence try_sequence) on sequence
      → IsEndpoint try_sequence e
      → IsEndpoint try_sequence
          (record e { sequence = sequence; flags = set_flag e.flags flag_clustered on })
  unfolding is_ipv6 is_nat is_clustered is_load is_signed
  clustered-IsEndpoint e on sequence fits valid =
      let kept = clustered-Kept e.flags valid.base.flags_fit on in
      record {
        base = record {
          flags_fit = kept.fits;
          sequence_fits = rw kept.clustered fits;
          primary_fits = rw kept.family valid.base.primary_fits;
          agent_fits = rw (kept.family, kept.nat) valid.base.agent_fits;
          load_fits = rw kept.load valid.base.load_fits;
        };
        signature_fits = rw kept.sign valid.signature_fits;
      }

  set_sequence-IsEndpoint :
      (e : EndpointAddr) (sequence : ℕ)
      → IsSequence try_sequence sequence
      → IsEndpoint try_sequence e
      → IsEndpoint try_sequence (set_sequence e sequence)
  unfolding set_sequence set_clustered Field
  set_sequence-IsEndpoint e sequence fits valid = elim (Bool-cases (ltb 0 sequence)) [
    | inl a ↦ rw a (clustered-IsEndpoint e true (some sequence) fits valid)
    | inr a ↦ rw a (clustered-IsEndpoint e false none tt valid)
  ]

  -- A record with addresses only.
  plain-IsEndpoint :
      (e : EndpointAddr)
      → e.flags < 256
      → Field (IsSequence try_sequence) (is_clustered e) e.sequence
      → IsWireAddr (is_ipv6 e) e.primary
      → Field (IsWireAddr (is_ipv6 e)) (is_nat e) e.agent
      → Field (λ load. load < 2 ^ 32) (is_load e) e.load
      → Field IsSignature (is_signed e) e.signature
      → IsEndpoint try_sequence e
  plain-IsEndpoint e a b c d f g = record {
    base = record {
      flags_fit = a;
      sequence_fits = b;
      primary_fits = c;
      agent_fits = d;
      load_fits = f;
    };
    signature_fits = g;
  }

-- The setters change what is not an address.
wired-set_main :
    (e : EndpointAddr) (main : Bool) → wired (set_main e main) ≡ set_main (wired e) main
unfolding wired set_main
wired-set_main e main = refl

wired-set_load :
    (e : EndpointAddr) (load : Option ℕ) → wired (set_load e load) ≡ set_load (wired e) load
unfolding wired set_load
wired-set_load e none = refl
wired-set_load e (some load) = refl

wired-set_sequence :
    (e : EndpointAddr) (sequence : ℕ)
    → wired (set_sequence e sequence) ≡ set_sequence (wired e) sequence
unfolding wired set_sequence set_clustered
wired-set_sequence e sequence = elim (Bool-cases (ltb 0 sequence)) [
  | inl a ↦ rw a refl
  | inr a ↦ rw a refl
]

-- Every record that the constructors and any number of calls of `set_main`, `set_load` and
-- `set_sequence` give is well formed, when the flow info and the scope of its IPv6 addresses, which are
-- not written, are set to 0: its flags are a byte and agree with the fields that are there and with the
-- family of the addresses. The addresses, with any flow info and scope, and the numbers that the calls
-- are given fit their types.
pub Built-IsEndpoint :
    (try_sequence : ℕ → Option ℕ) (e : EndpointAddr)
    → Built try_sequence e
    → IsEndpoint try_sequence (wired e)
unfolding direct_v4 direct_v6 nat_v4 nat_v6 is_ipv6 is_nat is_clustered is_load is_signed Field
    wired wire_agent
Built-IsEndpoint try_sequence _ (new_direct_v4 ip port h) =
    plain-IsEndpoint _ (omega arith) tt (IsAddr-wire_addr false _ h) tt tt tt
Built-IsEndpoint try_sequence _ (new_direct_v6 ip port flow scope h) =
    plain-IsEndpoint _ (omega arith) tt (IsAddr-wire_addr true _ h) tt tt tt
Built-IsEndpoint try_sequence _ (new_nat_v4 ip port agent_ip agent_port h k) =
    plain-IsEndpoint _ (omega arith) tt (IsAddr-wire_addr false _ h) (IsAddr-wire_addr false _ k) tt
      tt
Built-IsEndpoint try_sequence _
      (new_nat_v6 ip port flow scope agent_ip agent_port agent_flow agent_scope h k) =
    plain-IsEndpoint _ (omega arith) tt (IsAddr-wire_addr true _ h) (IsAddr-wire_addr true _ k) tt
      tt
Built-IsEndpoint try_sequence _ (then_main e main built) =
    rw (wired-set_main e main)
      (set_main-IsEndpoint (wired e) main (Built-IsEndpoint try_sequence e built))
Built-IsEndpoint try_sequence _ (then_load e load fits built) =
    rw (wired-set_load e load)
      (set_load-IsEndpoint (wired e) load fits (Built-IsEndpoint try_sequence e built))
Built-IsEndpoint try_sequence _ (then_sequence e sequence fits built) =
    rw (wired-set_sequence e sequence)
      (set_sequence-IsEndpoint (wired e) sequence fits (Built-IsEndpoint try_sequence e built))
