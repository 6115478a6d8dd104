-- ===== src/Arrays/Tests.antt =====
-- An array that grows from 8 to 16 elements.
use wah.Base.{ℕ, ◌≡◌, refl, Bool, true}
use wah.Status.{ok}
use wah.Arrays.{grow_array, grow_loop}

abbrev always : ℕ → Bool
always n = true

grown : grow_array always 9 8 ≡ ok 16
unfolding grow_array grow_loop
grown = refl
