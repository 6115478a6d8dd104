-- ===== src/Validation/Locals.antt =====
-- The locals that a block initialized, at its end.
use wah.Base.{ℕ, zero, suc, ◌≤◌, ◌≡◌, refl, sym, ap, ◌∙◌, Bool, true, false, not, arith}
use wah.Base.{List, [], ◌∷◌, length, set, get_or, if◌then◌else◌}
use wah.Types.{WahType, FuncType}
use wah.Validation.{LocalInits, init_local, revert, revert_undo, local_needs_init}

-- A sequence of `local.set` and `local.tee`.
abbrev pub init_locals : FuncType → LocalInits → List (ℕ × WahType) → LocalInits
init_locals ft li [] = li
init_locals ft li ((i, t) ∷ is) = init_locals ft (init_local ft li i t) is

set-back : (bs : List Bool) (i : ℕ) → get_or bs i false ≡ false → set (set bs i true) i false ≡ bs
set-back [] i h = refl
set-back (b ∷ bs) zero h = ap (λ b. b ∷ bs) (sym h)
set-back (b ∷ bs) (suc i) h = ap (λ bs. b ∷ bs) (set-back bs i h)

-- Reverting to a length of the undo list from before an initialization passes it.
pub revert-init_local :
    (ft : FuncType) (li : LocalInits) (i : ℕ) (t : WahType) (base : ℕ)
    → base ≤ length li.undo
    → revert (init_local ft li i t) base ≡ revert li base
unfolding init_local revert
revert-init_local ft li i t base h = go (local_needs_init ft i t) (get_or li.inits i false) refl
  where
    go :
        (n b : Bool)
        → get_or li.inits i false ≡ b
        → revert
            (if not n
              then li
              else if b
              then li
              else record { inits = set li.inits i true; undo = i ∷ li.undo })
            base
          ≡ revert li base
    go false b e = refl
    go true true e = refl
    go true false e =
        ground (arith, h, ap (λ bs. revert_undo base bs li.undo) (set-back li.inits i e))

pub undo_grows :
    (ft : FuncType) (li : LocalInits) (i : ℕ) (t : WahType)
    → length li.undo ≤ length (init_local ft li i t).undo
unfolding init_local
undo_grows ft li i t = go (local_needs_init ft i t) (get_or li.inits i false)
  where
    go :
        (n b : Bool)
        → length li.undo
          ≤ length
              (if not n
                then li
                else if b
                then li
                else record { inits = set li.inits i true; undo = i ∷ li.undo }).undo
    go false b = omega arith
    go true true = omega arith
    go true false = omega arith

pub revert-own_length : (li : LocalInits) → revert li (length li.undo) ≡ li
unfolding revert
revert-own_length li = go li.undo
  where
    go :
        (is : List ℕ) → revert_undo (length is) li.inits is ≡ record { inits = li.inits; undo = is }
    go [] = refl
    go (i ∷ is) = ground arith

revert-init_locals :
    (ft : FuncType) (is : List (ℕ × WahType)) (li : LocalInits) (base : ℕ)
    → base ≤ length li.undo
    → revert (init_locals ft li is) base ≡ revert li base
revert-init_locals ft [] li base h = refl
revert-init_locals ft ((i, t) ∷ is) li base h =
    revert-init_locals ft is (init_local ft li i t) base (omega (arith, h, undo_grows ft li i t))
    ∙ revert-init_local ft li i t base h

-- Whatever locals a block initializes, in any order and any number of times, its end restores the
-- record of initialized locals that was saved at its beginning, and the undo list with it.
pub revert-init_locals-block :
    (ft : FuncType) (is : List (ℕ × WahType)) (li : LocalInits)
    → revert (init_locals ft li is) (length li.undo) ≡ li
revert-init_locals-block ft is li =
    revert-init_locals ft is li (length li.undo) (omega arith) ∙ revert-own_length li
