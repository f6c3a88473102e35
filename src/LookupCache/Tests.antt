-- ===== src/LookupCache/Tests.antt =====
-- The cache theorem at a concrete answer: the lookup is a number.
use ddns.Prelude.{◌+◌, ◌<◌, ◌≤◌, ◌≡◌, refl, arith, Bool, [], ◌∷◌, none, some}
use ddns.Prelude.{ℕ, ◌==◌}
use ddns.LookupCache.{LookupKey, get, insert, get-insert}

abbrev same_number : ℕ → ℕ → Bool
same_number a b = a == b

abbrev ab : LookupKey ℕ
ab = record { name = b'a' ∷ b'b' ∷ []; lookup = 3 }

abbrev seven : ℕ
seven = 7

get-insert_example :
    (104 < 100 + 5 → (get same_number 104 ab (insert same_number 100 ab seven 5 [])).0 ≡ some seven)
    × (100 + 5 ≤ 104
        → ((get same_number 104 ab (insert same_number 100 ab seven 5 [])).0 ≡ none)
          × ((get same_number 9 ab
                (get same_number 104 ab (insert same_number 100 ab seven 5 [])).1).0
              ≡ none))
get-insert_example = get-insert same_number 100 104 9 ab seven 5 [] refl (omega arith)
