-- ===== src/Names/Tests.antt =====
-- A search among three names.
use wah.Base.{ℕ, ◌≡◌, refl, List, [], ◌∷◌, ltb, arith}
use wah.Names.{less_at, export_lower_bound, export_name_less, memcmp_less}
use wah.Names.Search.{IsSorted, export_lower_bound-less}

abbrev names : List (List ℕ)
names = (97 ∷ []) ∷ (98 ∷ []) ∷ (97 ∷ 98 ∷ []) ∷ []

abbrev name : List ℕ
name = 98 ∷ []

names-IsSorted : IsSorted names
unfolding export_name_less memcmp_less
names-IsSorted = ((refl, (refl, tt)), ((refl, tt), (tt, tt)))

export_lower_bound-less_example : less_at names name 0 ≡ ltb 0 (export_lower_bound names name)
export_lower_bound-less_example = export_lower_bound-less names name 0 names-IsSorted (omega arith)
