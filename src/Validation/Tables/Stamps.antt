-- ===== src/Validation/Tables/Stamps.antt =====
-- The stamps of the labels of a br_table.
use wah.Base.{
  ℕ, zero, suc, ◌+◌, ◌^◌, ◌≤◌, ◌<◌, ◌≡◌, refl, true, false, ◌==◌, if◌then◌else◌, List, [], ◌∷◌,
  length, get_or, set, replicate, All, arith, ==_iff,
}
use wah.Validation.Tables.{Labels}

abbrev pub Below : ℕ → List ℕ → Type 0
Below s xs = All (λ x. x < s) xs

-- How many of the first `n` elements are `s`.
pub count_to : ℕ → ℕ → List ℕ → ℕ
count_to zero s xs = 0
count_to (suc n) s [] = 0
count_to (suc n) s (x ∷ xs) = (if x == s then 1 else 0) + count_to n s xs

pub count_to_le : (n s : ℕ) (xs : List ℕ) → count_to n s xs ≤ n
unfolding count_to
count_to_le zero s xs = omega arith
count_to_le (suc n) s [] = omega arith
count_to_le (suc n) s (x ∷ xs) = ground (arith, count_to_le n s xs)

pub count_to-set :
    (n s i : ℕ) (xs : List ℕ)
    → i < n
    → i < length xs
    → (get_or xs i 0 == s) ≡ false
    → count_to n s (set xs i s) ≡ suc (count_to n s xs)
unfolding count_to
count_to-set zero s i xs h k e = absurd (omega (arith, h))
count_to-set (suc n) s i [] h k e = absurd (omega (arith, k))
count_to-set (suc n) s zero (x ∷ xs) h k e =
    let same : (s == s) ≡ true = (==_iff s s).1 refl in simp (same, e) (omega arith)
count_to-set (suc n) s (suc i) (x ∷ xs) h k e =
    omega (arith, count_to-set n s i xs (omega (arith, h)) (omega (arith, k)) e)

pub Below-get_or : (s i : ℕ) (xs : List ℕ) → 0 < s → Below s xs → get_or xs i 0 < s
Below-get_or s i [] h a = h
Below-get_or s zero (x ∷ xs) h a = a.0
Below-get_or s (suc i) (x ∷ xs) h a = Below-get_or s i xs h a.1

pub count_to_fresh : (n s : ℕ) (xs : List ℕ) → Below s xs → count_to n s xs ≡ 0
unfolding count_to
count_to_fresh zero s xs a = refl
count_to_fresh (suc n) s [] a = refl
count_to_fresh (suc n) s (x ∷ xs) a = ground (arith, a.0, count_to_fresh n s xs a.1)

pub Below-set : (s : ℕ) (xs : List ℕ) (i v : ℕ) → Below s xs → v < s → Below s (set xs i v)
Below-set s [] i v a p = tt
Below-set s (x ∷ xs) zero v a p = (p, a.1)
Below-set s (x ∷ xs) (suc i) v a p = (a.0, Below-set s xs i v a.1 p)

pub Below-mono : (s t : ℕ) (xs : List ℕ) → s ≤ t → Below s xs → Below t xs
Below-mono s t [] h a = tt
Below-mono s t (x ∷ xs) h a = (omega (arith, a.0, h), Below-mono s t xs h a.1)

pub Below-replicate : (s n v : ℕ) → v < s → Below s (replicate n v)
Below-replicate s zero v p = tt
Below-replicate s (suc n) v p = (p, Below-replicate s n v p)

-- The stamps are of this table or of earlier ones, for every label up to the greatest control depth.
pub record IsStamped (l : Labels) : Type 0 where
  pub room : length l.stamps ≡ 257
  pub room_records : length l.records ≡ 257
  pub word : l.serial < 2 ^ 32
  pub earlier : Below (suc l.serial) l.stamps
