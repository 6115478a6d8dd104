-- ===== src/Types/Section/Added.antt =====
-- The definitions that parsing one type of the type section puts behind those there are.
use wah.Base.{
  ℕ, suc, ◌+◌, ◌≡◌, refl, sym, ap, ◌∙◌, if◌then◌else◌, Bool, arith, List, [], ◌∷◌, ◌++◌, map,
  length, take, drop, append_assoc,
}
use wah.Status.{Result, ok}
use wah.Types.{FuncType, TypeDef}
use wah.Types.Parse.{ParseState, Parse, pure, ◌>>=◌, require_feature, shift_gc}
use wah.Types.Section.{parse_sub_type}
use wah.Types.Section.{append_type, ensure_capacity, fresh_func, fresh_def}
use wah.Types.Section.Keeps.{Keeps, Keeps-if, Keeps-pure, Keeps-require_feature, bind-eq}
use wah.Types.Section.Decodes.{Keeps-parse_sub_type, Keeps-ensure_capacity}

-- `news` are the definitions that came behind those there were, each with its function type.
pub record Added (news : List TypeDef) (s t : ParseState) : Type 0 where
  pub defs : t.module_.type_defs ≡ s.module_.type_defs ++ news
  pub lengths : length t.module_.types ≡ length s.module_.types + length news

pub length-++ : {A : Type 0} (xs ys : List A) → length (xs ++ ys) ≡ length xs + length ys
length-++ [] ys = omega arith
length-++ (x ∷ xs) ys = omega (arith, length-++ xs ys)

pub append_nil : {A : Type 0} (xs : List A) → xs ≡ xs ++ []
append_nil [] = refl
append_nil (x ∷ xs) = ap (λ l. x ∷ l) (append_nil xs)

pub length-map : {A B : Type 0} (f : A → B) (xs : List A) → length (map f xs) ≡ length xs
length-map f [] = refl
length-map f (x ∷ xs) = ap suc (length-map f xs)

pub kept :
    {A : Type 0} (m : Parse A)
    → Keeps m
    → (s : ParseState) {a : Result A} {t : ParseState} → m s ≡ (a, t)
    → Added [] s t
kept m k s {a} {t} e =
    let (h, h') = k s in
    record {
      defs = sym (ap (λ p. p.1.module_.type_defs) e) ∙ (h' ∙ append_nil s.module_.type_defs);
      lengths =
          let l : length t.module_.types ≡ length s.module_.types =
            sym (ap (λ p. length p.1.module_.types) e) ∙ ap length h in
          omega (arith, l);
    }

pub Added-then :
    {a b : List TypeDef} {s t u : ParseState} → Added a s t → Added b t u → Added (a ++ b) s u
Added-then {a} {b} {s} {t} {u} x y = record {
  defs = y.defs ∙ (ap (λ l. l ++ b) x.defs ∙ append_assoc s.module_.type_defs a b);
  lengths = omega (arith, x.lengths, y.lengths, length-++ a b);
}

append_type-Added :
    (ft : FuncType) (td : TypeDef) (s : ParseState) → Added (td ∷ []) s (append_type ft td s).1
append_type-Added ft td s = record { defs = refl; lengths = length-++ s.module_.types (ft ∷ []) }

-- What one definition and the requirement of its features behind it add.
pub one_definition :
    (td : FuncType × TypeDef → TypeDef) (need : FuncType × TypeDef → Bool) (idx : ℕ)
    (s t : ParseState)
    → (ensure_capacity (idx + 1) >>= λ _. parse_sub_type idx fresh_func fresh_def >>= λ p.
          append_type p.0 (td p) >>= λ _. if need p then require_feature shift_gc else pure tt)
        s
      ≡ (ok tt, t)
    → (p : FuncType × TypeDef) × Added (td p ∷ []) s t
one_definition td need idx s t h =
    let (_, s1, e1, h1) = bind-eq (ensure_capacity (idx + 1)) _ s h in
    let (p, s2, e2, h2) = bind-eq (parse_sub_type idx fresh_func fresh_def) _ s1 h1 in
    let gc : Parse (Unit {0}) = if need p then require_feature shift_gc else pure tt in
    let k : Keeps gc =
      Keeps-if (need p) (require_feature shift_gc) (pure tt) (Keeps-require_feature shift_gc)
        (Keeps-pure tt) in
    (
      p,
      Added-then
          (Added-then (kept (ensure_capacity (idx + 1)) (Keeps-ensure_capacity (idx + 1)) s e1) (
            kept (parse_sub_type idx fresh_func fresh_def)
              (Keeps-parse_sub_type idx fresh_func fresh_def) s1 e2))
          (Added-then (append_type-Added p.0 (td p) s2)
            (kept gc k (append_type p.0 (td p) s2).1 h2)),
    )

pub take-append : {A : Type 0} (xs ys : List A) → take (length xs) (xs ++ ys) ≡ xs
take-append [] ys = refl
take-append (x ∷ xs) ys = ap (λ l. x ∷ l) (take-append xs ys)

pub drop-append : {A : Type 0} (xs ys : List A) → drop (length xs) (xs ++ ys) ≡ ys
drop-append [] ys = refl
drop-append (x ∷ xs) ys = drop-append xs ys
