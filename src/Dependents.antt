-- ===== src/Dependents.antt =====
-- The lists of contexts that depend on another one: `dependents` of a context and `gc_dependents` of a
-- heap, which are kept the same way.
pub mod Keeps
pub mod Poison
mod Tests
use wah.Base.{ℕ, ◌+◌, Bool, true, false, ◌||◌, ◌==◌, if◌then◌else◌, List, [], ◌∷◌, ◌++◌, length}
use wah.Status.{Result, ok, err}
use wah.Arrays.{grow_array}
use wah.Gc.Marks.{elem}

-- An array of contexts with its capacity.
pub record Dependents : Type 0 where
  pub list : List ℕ
  pub cap : ℕ

abbrev pub added : ℕ → Dependents → Result ℕ → Result Dependents
added dep d (err e) = err e
added dep d (ok cap) = ok (record { list = d.list ++ dep ∷ []; cap = cap })

-- `wah_gc_register_dependent` and `wah_register_dependent`
unfoldable pub register_dependent : (ℕ → Bool) → ℕ → Dependents → Result Dependents
register_dependent realloc dep d =
    if elem dep d.list then ok d else added dep d (grow_array realloc (length d.list + 1) d.cap)

-- The last element of a list that is not empty, and the others.
unfoldable pub last : ℕ → List ℕ → ℕ
last x [] = x
last x (y ∷ ys) = last y ys

unfoldable pub all_but_last : ℕ → List ℕ → List ℕ
all_but_last x [] = []
all_but_last x (y ∷ ys) = x ∷ all_but_last y ys

abbrev pub last_first : List ℕ → List ℕ
last_first [] = []
last_first (x ∷ xs) = last x xs ∷ all_but_last x xs

-- `wah_gc_unregister_dependent` and `wah_unregister_dependent`: the last element takes the free place.
unfoldable pub unregister : ℕ → List ℕ → List ℕ
unfolding last all_but_last
unregister dep [] = []
unregister dep (x ∷ xs) =
    let rest = unregister dep xs in if x == dep then last_first xs else x ∷ rest
