-- ===== src/Candidates/Tests.antt =====
-- Runs of the grouping and of the selection, and the theorems at concrete inputs.
use ddns.Prelude.{ℕ, ◌≡◌, refl, ◌==◌, List, [], ◌∷◌, map, retain, none, some, Distinct}
use ddns.Endpoint.Defs.{
  direct_v4, set_main, set_sequence, is_main, normalized_sequence, set_clustered,
}
use ddns.Name.Defs.{name_eq}
use ddns.Candidates.Defs.{
  TaggedEndpointCandidate, grouped_endpoint_candidates, group_from, group_candidate, push_endpoint,
  effective_chain_key, certificate_chain_key, primary_chain_key, secondary_chain_key,
  is_primary_chain_key, try_from,
}
use ddns.Candidates.Reference.{
  reference, admitted, group_keys, grouped_endpoint_candidates-reference,
}
use ddns.Candidates.Select.{
  selected_endpoint_records_with_fallback_chain_keys, of_first_key,
  selected_endpoint_records-admitted,
}
use ddns.Candidates.Examples.{simple_keys, simple_transport, candidate}

abbrev three : List (TaggedEndpointCandidate (ℕ × ℕ) ℕ)
three = candidate 1 53 2 ∷ candidate 2 54 0 ∷ candidate 3 55 2 ∷ []

group_three :
    grouped_endpoint_candidates simple_keys simple_transport three
    ≡ ((2, 0x30), (1, (4, (0x7f000001, 53))) ∷ (3, (4, (0x7f000001, 55))) ∷ [])
      ∷ ((0, 0x30), (2, (4, (0x7f000001, 54))) ∷ [])
      ∷ []
unfolding grouped_endpoint_candidates group_from group_candidate push_endpoint effective_chain_key
    certificate_chain_key primary_chain_key secondary_chain_key is_primary_chain_key try_from
    set_sequence set_main direct_v4 set_clustered is_main normalized_sequence name_eq
group_three = refl

grouped_endpoint_candidates-reference_example :
    (grouped_endpoint_candidates simple_keys simple_transport three
      ≡ reference simple_keys (admitted simple_keys simple_transport three))
    × Distinct simple_keys.key_eq
        (group_keys simple_keys (grouped_endpoint_candidates simple_keys simple_transport three))
grouped_endpoint_candidates-reference_example =
    grouped_endpoint_candidates-reference simple_keys simple_transport three

selected_endpoint_records-admitted_example :
    ((s : ℕ)
      → selected_endpoint_records_with_fallback_chain_keys simple_keys simple_transport three
          (some s)
        ≡ map
            (λ (k, x). x)
            (retain
              (λ (k, x). simple_keys.sequence k == s)
              (admitted simple_keys simple_transport three)))
    × (selected_endpoint_records_with_fallback_chain_keys simple_keys simple_transport three none
        ≡ of_first_key simple_keys simple_transport (admitted simple_keys simple_transport three))
selected_endpoint_records-admitted_example =
    selected_endpoint_records-admitted simple_keys simple_transport three
