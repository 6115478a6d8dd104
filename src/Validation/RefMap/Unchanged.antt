-- ===== src/Validation/RefMap/Unchanged.antt =====
-- The low-water mark of the operand stack (`type_stack.lwm`).
use wah.Base.{
  append_assoc, ℕ, zero, suc, ◌-◌, ◌≤◌, ◌≡◌, refl, sym, ap, ◌∙◌, min, List, [], ◌∷◌, ◌++◌, length,
  take, drop, length-append, arith,
}
use wah.Types.{WahType}
use wah.Validation.{Context}
use wah.Validation.RefMap.{data_of, onto}

onto-++ : (ts acc : List WahType) → onto ts acc ≡ onto ts [] ++ acc
onto-++ [] acc = refl
onto-++ (t ∷ ts) acc =
    onto-++ ts (t ∷ acc)
    ∙ sym (append_assoc (onto ts []) (t ∷ []) acc)
    ∙ ap (λ l. l ++ acc) (sym (onto-++ ts (t ∷ [])))

pub length-data_of : (ts : List WahType) → length (data_of ts) ≡ length ts
length-data_of [] = refl
length-data_of (t ∷ ts) =
    ap length (onto-++ ts (t ∷ []))
    ∙ length-append (data_of ts) (t ∷ [])
    ∙ omega (arith, length-data_of ts)

take-++ : (n : ℕ) (xs ys : List WahType) → n ≤ length xs → take n (xs ++ ys) ≡ take n xs
take-++ zero xs ys h = refl
take-++ (suc n) [] ys h = absurd (omega (arith, h))
take-++ (suc n) (x ∷ xs) ys h = ap (λ l. x ∷ l) (take-++ n xs ys (omega (arith, h)))

pub take-data_of-cons :
    (n : ℕ) (t : WahType) (ts : List WahType)
    → n ≤ length ts
    → take n (data_of (t ∷ ts)) ≡ take n (data_of ts)
take-data_of-cons n t ts h =
    ap (take n) (onto-++ ts (t ∷ []))
    ∙ take-++ n (data_of ts) (t ∷ []) (omega (arith, h, length-data_of ts))

pub take-data_of-drop :
    (n k : ℕ) (ts : List WahType)
    → n ≤ length ts - k
    → take n (data_of (drop k ts)) ≡ take n (data_of ts)
take-data_of-drop n zero ts h = refl
take-data_of-drop n (suc k) [] h = refl
take-data_of-drop n (suc k) (t ∷ ts) h =
    take-data_of-drop n k ts (omega (arith, h)) ∙ sym (take-data_of-cons n t ts (omega (arith, h)))

pub take-take : (m n : ℕ) (xs : List WahType) → m ≤ n → take m (take n xs) ≡ take m xs
take-take zero n xs h = refl
take-take (suc m) zero xs h = absurd (omega (arith, h))
take-take (suc m) (suc n) [] h = refl
take-take (suc m) (suc n) (x ∷ xs) h = ap (λ l. x ∷ l) (take-take m n xs (omega (arith, h)))

-- The slots below the mark are those that were captured.
pub record Unchanged (captured : List WahType) (v : Context) : Type 0 where
  pub mark : v.lwm ≤ length v.type_stack
  pub same :
      take (min v.lwm (length captured)) (data_of v.type_stack)
      ≡ take (min v.lwm (length captured)) captured

-- `w` has the operands of `v` that are at the bottom, and a mark at or below both.
pub record Lowered (v w : Context) : Type 0 where
  pub mark : w.lwm ≤ length w.type_stack
  pub less : w.lwm ≤ v.lwm
  pub kept : take w.lwm (data_of w.type_stack) ≡ take w.lwm (data_of v.type_stack)

pub Lowered-trans : {u v w : Context} → Lowered u v → Lowered v w → Lowered u w
Lowered-trans {u} {v} {w} l m = record {
  mark = m.mark;
  less = omega (arith, l.less, m.less);
  kept =
      m.kept
      ∙ sym (take-take w.lwm v.lwm (data_of v.type_stack) m.less)
      ∙ ap (take w.lwm) l.kept
      ∙ take-take w.lwm v.lwm (data_of u.type_stack) m.less;
}

pub Lowered-Unchanged :
    {captured : List WahType} {v w : Context}
    → Lowered v w
    → Unchanged captured v
    → Unchanged captured w
Lowered-Unchanged {captured} {v} {w} l u =
    let n : ℕ = min w.lwm (length captured) in
    let m : ℕ = min v.lwm (length captured) in
    let h : n ≤ m = omega (arith, l.less) in
    record {
      mark = l.mark;
      same =
          sym (take-take n w.lwm (data_of w.type_stack) (omega arith))
          ∙ ap (take n) l.kept
          ∙ take-take n w.lwm (data_of v.type_stack) (omega arith)
          ∙ sym (take-take n m (data_of v.type_stack) h)
          ∙ ap (take n) u.same
          ∙ take-take n m captured h;
    }
