-- ===== src/Mdns/Service/Tests.antt =====
-- A query at concrete inputs: an endpoint is its address and its port.
use ddns.Prelude.{ℕ, ◌≡◌, refl, Bool, ◌==◌, List, [], ◌∷◌, Option, some}
use ddns.Name.{Name}
use ddns.Name.Defs.{name_eq}
use ddns.LookupCache.{to_ascii_lowercase, trim_end_dots}
use ddns.Mdns.Service.{
  endpoints_are, local_name, strip_suffix, position, replace_at, swap_first, reorder, query_domain,
  any, count_if, query_domain-local_name,
}

abbrev address_eq : ℕ → ℕ × ℕ → Bool
address_eq address endpoint = endpoint.0 == address

-- "A.b" and "_s" for the service; the suffix is ".b".
abbrev suffix : Name
suffix = 46 ∷ 98 ∷ []

abbrev service : Name
service = 95 ∷ 115 ∷ []

abbrev asked : Name
asked = 65 ∷ 46 ∷ 98 ∷ 46 ∷ []

abbrev three : List (ℕ × ℕ)
three = (7, 1) ∷ (8, 2) ∷ (9, 3) ∷ []

abbrev responder : Name → Option (ℕ × List (ℕ × ℕ))
responder name = some (9, three)

local_name_of :
    local_name suffix service (to_ascii_lowercase (trim_end_dots asked)) ≡ 97 ∷ 46 ∷ 95 ∷ 115 ∷ []
unfolding local_name strip_suffix to_ascii_lowercase trim_end_dots name_eq
local_name_of = refl

swapped :
    query_domain address_eq suffix service (some responder) asked
    ≡ some (endpoints_are ((9, 3) ∷ (8, 2) ∷ (7, 1) ∷ []))
unfolding query_domain reorder swap_first replace_at position
swapped = refl

query_domain-local_name_example :
    (b : ℕ × ℕ) × (bs : List (ℕ × ℕ)) × (query_domain address_eq suffix service
        (some responder)
        asked
      ≡ some (endpoints_are (b ∷ bs)))
    × (address_eq 9 b ≡ any (address_eq 9) three)
    × ((q : ℕ × ℕ → Bool) → count_if q (b ∷ bs) ≡ count_if q three)
query_domain-local_name_example =
    query_domain-local_name address_eq suffix service responder asked 9 (7, 1)
      ((8, 2) ∷ (9, 3) ∷ []) refl
