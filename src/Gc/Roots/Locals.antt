-- ===== src/Gc/Roots/Locals.antt =====
-- The parameters and locals of a frame that are roots.
use wah.Base.{
  append_assoc, ℕ, zero, suc, ◌+◌, ◌-◌, ◌*◌, ◌≤◌, ◌≡◌, refl, sym, ap, ◌∙◌, if◌then◌else◌, List, [],
  ◌∷◌, ◌++◌, length, arith, Bool-cases, inl, inr, some, Option-cases, get_elem?,
}
use wah.Types.{WahType, is_ref}
use wah.Sections.{LocalRun}
use wah.Sections.Limits.{Runs}
use wah.Lifecycle.State.{sizeof_value}
use wah.Gc.Roots.{
  typed_roots, value_roots, run_roots, frame_roots, operand_roots, node_roots, CallFrame, CodeBody,
  RefNode,
}

-- `n` locals of a type.
unfoldable pub same_type : ℕ → WahType → List WahType
same_type zero t = []
same_type (suc n) t = t ∷ same_type n t

-- The types of all declared locals, one by one.
unfoldable pub local_types : ℕ → List LocalRun → List WahType
unfolding same_type
local_types start [] = []
local_types start (r ∷ rs) = same_type (r.end - start) r.type ++ local_types r.end rs

module _ (read : ℕ → ℕ) where
  typed_roots-none : (base : ℕ) → typed_roots read base [] ≡ []
  unfolding typed_roots
  typed_roots-none base = refl

  typed_roots-append :
      (base : ℕ) (ts us : List WahType)
      → typed_roots read base (ts ++ us)
        ≡ typed_roots read base ts ++ typed_roots read (base + length ts * sizeof_value) us
  unfolding typed_roots
  typed_roots-append base [] us =
      let at : base + 0 * sizeof_value ≡ base = omega arith in
      ap (λ a. typed_roots read a us) (sym at)
  typed_roots-append base (t ∷ ts) us =
      let at : base + sizeof_value + length ts * sizeof_value
          ≡ base + length (t ∷ ts) * sizeof_value =
        omega arith in
      let ih =
        typed_roots-append (base + sizeof_value) ts us
        ∙ ap (λ a. typed_roots read (base + sizeof_value) ts ++ typed_roots read a us) at in
      elim (Bool-cases (is_ref t)) [ inl r ↦ simp (r, ih) | inr n ↦ simp (n, ih) ]

  typed_roots-same_type :
      (base n : ℕ) (t : WahType)
      → typed_roots read base (same_type n t) ≡ (if is_ref t then value_roots read base n else [])
  unfolding typed_roots same_type value_roots
  typed_roots-same_type base zero t = ground arith
  typed_roots-same_type base (suc n) t =
      ground (arith, typed_roots-same_type (base + sizeof_value) n t)

  length-same_type : (n : ℕ) (t : WahType) → length (same_type n t) ≡ n
  unfolding same_type
  length-same_type zero t = refl
  length-same_type (suc n) t = ap suc (length-same_type n t)

  pub run_roots-typed :
      (base start total : ℕ) (rs : List LocalRun)
      → Runs start rs total
      → run_roots read base start rs
        ≡ typed_roots read (base + start * sizeof_value) (local_types start rs)
  unfolding run_roots local_types
  run_roots-typed base start total [] h = sym (typed_roots-none (base + start * sizeof_value))
  run_roots-typed base start total (r ∷ rs) h =
      let types = same_type (r.end - start) r.type in
      let at : base + start * sizeof_value + length types * sizeof_value
          ≡ base + r.end * sizeof_value =
        omega (arith, length-same_type (r.end - start) r.type, h.0) in
      let split =
        typed_roots-append (base + start * sizeof_value) types (local_types r.end rs)
        ∙ ap
            (λ a.
              typed_roots read (base + start * sizeof_value) types
              ++ typed_roots read a (local_types r.end rs))
            at in
      let first = typed_roots-same_type (base + start * sizeof_value) (r.end - start) r.type in
      let ih = run_roots-typed base r.end total rs h.1 in
      elim (Bool-cases (is_ref r.type)) [
        | inl y ↦ simp (y, split, first, ih)
        | inr n ↦ simp (n, split, first, ih)
      ]

  -- The parameters and declared locals of a frame that are visited run by run are exactly those whose
  -- type is a reference, in the list of the types of all of them, where the runs go up to the number of
  -- locals without empty runs. The operands of its ref map come behind them.
  pub frame_roots-exact :
      (next_base : ℕ) (f : CallFrame) (code : CodeBody)
      → f.code ≡ some code
      → Runs 0 code.local_runs code.local_count
      → frame_roots read next_base f
        ≡ typed_roots read f.locals (f.param_types ++ local_types 0 code.local_runs)
          ++ operand_roots read next_base f code
  unfolding frame_roots
  frame_roots-exact next_base f code c h =
      let base = f.locals + length f.param_types * sizeof_value in
      let at : base + 0 * sizeof_value ≡ base = omega arith in
      let runs = run_roots-typed base 0 code.local_count code.local_runs h in
      let split = typed_roots-append f.locals f.param_types (local_types 0 code.local_runs) in
      simp (frame_roots, c, split, runs, append_assoc, at)

  -- Fuel for the nodes up to the first one is enough.
  pub node_roots_enough :
      (base depth : ℕ) (nodes : List RefNode) (fuel more n : ℕ)
      → ((i : ℕ) (node : RefNode) → get_elem? nodes i ≡ some node → node.parent ≤ i)
      → n ≤ fuel
      → n ≤ more
      → node_roots read base depth nodes fuel n ≡ node_roots read base depth nodes more n
  unfolding node_roots
  node_roots_enough base depth nodes zero zero n down h k = refl
  node_roots_enough base depth nodes zero (suc more) zero down h k = refl
  node_roots_enough base depth nodes zero (suc more) (suc n) down h k = absurd (omega (arith, h))
  node_roots_enough base depth nodes (suc fuel) zero zero down h k = refl
  node_roots_enough base depth nodes (suc fuel) zero (suc n) down h k = absurd (omega (arith, k))
  node_roots_enough base depth nodes (suc fuel) (suc more) zero down h k = refl
  node_roots_enough base depth nodes (suc fuel) (suc more) (suc n) down h k =
      let before : suc n - 1 ≡ n = omega arith in
      elim (Option-cases (get_elem? nodes n)) [
        | inl e ↦ simp (node_roots, before, e)
        | inr (node, e) ↦
            let ih =
              node_roots_enough base depth nodes fuel more node.parent down
                (omega (arith, down n node e, h)) (omega (arith, down n node e, k)) in
            simp (node_roots, before, e, ih)
      ]
