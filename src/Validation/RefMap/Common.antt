-- ===== src/Validation/RefMap/Common.antt =====
-- The depth up to which a captured stack and the current one agree.
use wah.Base.{
  ℕ, zero, suc, ◌+◌, ◌≤◌, ◌≡◌, refl, sym, ap, ◌∙◌, min, List, [], ◌∷◌, ◌++◌, length, length-drop,
  take, drop, arith, Bool-cases, inl, inr,
}
use wah.Base.Int.{◌==ℤ◌, ==ℤ_iff}
use wah.Types.{WahType}
use wah.Validation.{Context}
use wah.Validation.RefMap.{data_of, advance_common, common_depth}
use wah.Validation.RefMap.Unchanged.{Unchanged, length-data_of}

-- How far two stacks agree.
record Agrees (n : ℕ) (cs ds : List WahType) (common : ℕ) : Type 0 where
  length_ : ℕ
  reaches : common ≡ n + length_
  within_captured : length_ ≤ length cs
  within : length_ ≤ length ds
  agree : take length_ cs ≡ take length_ ds

none_agree : (n : ℕ) (cs ds : List WahType) → Agrees n cs ds n
none_agree n cs ds = record {
  length_ = 0;
  reaches = omega arith;
  within_captured = omega arith;
  within = omega arith;
  agree = refl;
}

advance_common-Agrees : (n : ℕ) (cs ds : List WahType) → Agrees n cs ds (advance_common n cs ds)
unfolding advance_common
advance_common-Agrees n [] ds = none_agree n [] ds
advance_common-Agrees n (c ∷ cs) [] = none_agree n (c ∷ cs) []
advance_common-Agrees n (c ∷ cs) (d ∷ ds) =
    let a = advance_common-Agrees (suc n) cs ds in
    elim (Bool-cases (c ==ℤ d)) [
      | inl same ↦ simp same (record {
        length_ = suc a.length_;
        reaches = omega (arith, a.reaches);
        within_captured = omega (arith, a.within_captured);
        within = omega (arith, a.within);
        agree = ap (λ x. x ∷ take a.length_ cs) ((==ℤ_iff c d).0 same) ∙ ap (λ l. d ∷ l) a.agree;
      })
      | inr other ↦ simp other (none_agree n (c ∷ cs) (d ∷ ds))
    ]

take_split {ℓ} :
    {A : Type ℓ} (n k : ℕ) (xs : List A) → take (n + k) xs ≡ take n xs ++ take k (drop n xs)
take_split zero k xs = let e : 0 + k ≡ k = omega arith in rw e refl
take_split (suc n) zero [] = let e : suc n + 0 ≡ suc n = omega arith in rw e refl
take_split (suc n) (suc k) [] = let e : suc n + suc k ≡ suc (n + suc k) = omega arith in rw e refl
take_split (suc n) k (x ∷ xs) =
    let e : suc n + k ≡ suc (n + k) = omega arith in rw e (ap (λ l. x ∷ l) (take_split n k xs))

pub take++drop {ℓ} : {A : Type ℓ} (n : ℕ) (xs : List A) → take n xs ++ drop n xs ≡ xs
take++drop zero xs = refl
take++drop (suc n) [] = refl
take++drop (suc n) (x ∷ xs) = ap (λ l. x ∷ l) (take++drop n xs)

-- The captured stack and the current one agree up to the common depth.
pub common_depth-agrees :
    (v : Context) (cs : List WahType)
    → Unchanged cs v
    → (common_depth v.lwm cs (data_of v.type_stack) ≤ length cs)
      × (take (common_depth v.lwm cs (data_of v.type_stack)) cs
          ≡ take (common_depth v.lwm cs (data_of v.type_stack)) (data_of v.type_stack))
common_depth-agrees v cs u =
    let n : ℕ = min v.lwm (length cs) in
    let ds = data_of v.type_stack in
    let a = advance_common-Agrees n (drop n cs) (drop n ds) in
    let h : n ≤ length ds = omega (arith, u.mark, length-data_of v.type_stack) in
    (
      omega (arith, a.reaches, a.within_captured, length-drop n cs),
      ap (λ k. take k cs) a.reaches
          ∙ take_split n a.length_ cs
          ∙ ap (λ l. l ++ take a.length_ (drop n cs)) (sym u.same)
          ∙ ap (λ l. take n ds ++ l) a.agree
          ∙ sym (take_split n a.length_ ds)
          ∙ ap (λ k. take k ds) (sym a.reaches),
    )
