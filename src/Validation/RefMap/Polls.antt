-- ===== src/Validation/RefMap/Polls.antt =====
-- The ref maps of a function against the collector's reading of them.
use mathlib.Core.Path.{subst}
use wah.Base.{
  ℕ, zero, suc, ◌+◌, ◌-◌, ◌*◌, ◌/◌, ◌≤◌, ◌<◌, ◌≡◌, refl, sym, ap, ◌∙◌, ltb, List, [], ◌∷◌, ◌++◌,
  length, take, get_elem?, some, arith, Bool-cases, inl, inr, if◌then◌else◌,
}
use wah.Types.{WahType, is_ref}
use wah.Lifecycle.State.{sizeof_value}
use wah.Gc.Roots.{RefNode, CodeBody, CallFrame, typed_roots, operands, operand_roots}
use wah.Validation.{Context}
use wah.Validation.Control.Steps.{Step}
use wah.Validation.RefMap.{RefMaps, no_maps, onto, capture_ref_map}
use wah.Validation.RefMap.Lowering.{Step-Unchanged}
use wah.Validation.RefMap.Chains.{
  Chain, ends, Chain-++, Chain-bound, Tops, slots, next_slots, read_slots, node_roots-Chain,
}
use wah.Validation.RefMap.Captures.{IsCaptured, snapshot, capture_ref_map-Captured}

-- The validation of a function body, with the operand stacks that its maps were captured from: it begins
-- with an empty stack and no map, and goes on by steps of the validator and by captures.
pub data Analysis : Context → RefMaps → List (List WahType) → Type 0 where
  begins : (v : Context) → v.type_stack ≡ [] → v.lwm ≡ 0 → Analysis v no_maps []
  validates :
      {v w : Context} {m : RefMaps} {ss : List (List WahType)}
      → Analysis v m ss
      → Step v w
      → Analysis w m ss
  captures :
      {v : Context} {m : RefMaps} {ss : List (List WahType)}
      → Analysis v m ss
      → Analysis (capture_ref_map v m).0 (capture_ref_map v m).1 (ss ++ snapshot v ∷ [])

-- Each map leads to the references of its stack.
abbrev Polls : List RefNode → List ℕ → List (List WahType) → Type 0
Polls nodes [] [] = Unit {0}
Polls nodes [] (s ∷ ss) = ⊥
Polls nodes (top ∷ tops) [] = ⊥
Polls nodes (top ∷ tops) (s ∷ ss) = Chain nodes top (slots 0 s []) × Polls nodes tops ss

Polls-append :
    (nodes more : List RefNode) (tops : List ℕ) (ss : List (List WahType)) (top : ℕ)
    (s : List WahType)
    → Polls nodes tops ss
    → Chain (nodes ++ more) top (slots 0 s [])
    → Polls (nodes ++ more) (tops ++ top ∷ []) (ss ++ s ∷ [])
Polls-append nodes more [] [] top s p c = (c, tt)
Polls-append nodes more [] (x ∷ ss) top s p c = absurd p
Polls-append nodes more (y ∷ tops) [] top s p c = absurd p
Polls-append nodes more (y ∷ tops) (x ∷ ss) top s p c =
    (Chain-++ more p.0, Polls-append nodes more tops ss top s p.1 c)

begins-IsCaptured : (v : Context) → v.type_stack ≡ [] → v.lwm ≡ 0 → IsCaptured no_maps v
unfolding Tops
begins-IsCaptured v e z = record {
  tops = ends;
  unchanged = record { mark = omega (arith, z); same = simp (z, e) };
}

Analysis-Polls :
    {v : Context} {m : RefMaps} {ss : List (List WahType)}
    → Analysis v m ss
    → IsCaptured m v × Polls m.ref_nodes m.poll_ref_tops ss
Analysis-Polls (begins v e z) = (begins-IsCaptured v e z, tt)
Analysis-Polls (validates a s) =
    let (i, p) = Analysis-Polls a in
    (record { tops = i.tops; unchanged = Step-Unchanged s i.unchanged }, p)
Analysis-Polls (captures {v} {m} {ss} a) =
    let (i, p) = Analysis-Polls a in
    let (c, j) = capture_ref_map-Captured v m i in
    let n = (capture_ref_map v m).1 in
    (
      j,
      subst (λ tops. Polls n.ref_nodes tops (ss ++ snapshot v ∷ [])) (sym c.polled)
          (subst (λ nodes. Polls nodes (m.poll_ref_tops ++ c.top ∷ []) (ss ++ snapshot v ∷ []))
            (sym c.extends)
            (Polls-append m.ref_nodes c.more m.poll_ref_tops ss c.top (snapshot v) p
              (subst (λ nodes. Chain nodes c.top (slots 0 (snapshot v) [])) c.extends c.chain))),
    )

Polls-at :
    (nodes : List RefNode) (tops : List ℕ) (ss : List (List WahType)) (i : ℕ) (s : List WahType)
    → Polls nodes tops ss
    → get_elem? ss i ≡ some s
    → (top : ℕ) × (get_elem? tops i ≡ some top) × Chain nodes top (slots 0 s [])
Polls-at nodes [] [] i s p e = cc
Polls-at nodes [] (x ∷ ss) i s p e = absurd p
Polls-at nodes (top ∷ tops) [] i s p e = absurd p
Polls-at nodes (top ∷ tops) (x ∷ ss) zero s p e =
    let same : x ≡ s = cc in (top, refl, subst (λ y. Chain nodes top (slots 0 y [])) same p.0)
Polls-at nodes (top ∷ tops) (x ∷ ss) (suc i) s p e = Polls-at nodes tops ss i s p.1 e

module _ (read : ℕ → ℕ) (base depth : ℕ) where
  take_nil : (n : ℕ) → [] ≡ take {A = WahType} n []
  take_nil zero = refl
  take_nil (suc n) = refl

  -- The references from a position on, below the depth, on those before.
  abbrev refs_from : ℕ → List WahType → List ℕ → List ℕ
  refs_from j ts before =
      onto (typed_roots read (base + j * sizeof_value) (take (depth - j) ts)) before

  refs_from-cons :
      (j : ℕ) (t : WahType) (ts : List WahType) (before : List ℕ)
      → j < depth
      → refs_from j (t ∷ ts) before
        ≡ refs_from
            (suc j)
            ts
            (if is_ref t then read (base + j * sizeof_value) ∷ before else before)
  unfolding typed_roots
  refs_from-cons j t ts before h =
      let more : depth - j ≡ suc (depth - suc j) = omega (arith, h) in
      let next : base + suc j * sizeof_value ≡ base + j * sizeof_value + sizeof_value =
        omega arith in
      elim (Bool-cases (is_ref t)) [
        | inl reference ↦ simp (more, reference, next)
        | inr value ↦ simp (more, value, next)
      ]

  refs_from-end :
      (j : ℕ) (ts : List WahType) (before : List ℕ) → depth ≤ j → refs_from j ts before ≡ before
  unfolding typed_roots
  refs_from-end j ts before h = let e : depth - j ≡ 0 = omega (arith, h) in simp e

  read_slots-next :
      (j : ℕ) (t : WahType) (ps : List ℕ)
      → read_slots read base depth (next_slots j t ps) ≡ (
          if ltb j depth
          then if is_ref t
            then read (base + j * sizeof_value) ∷ read_slots read base depth ps
            else read_slots read base depth ps
          else read_slots read base depth ps)
  read_slots-next j t ps = elim (Bool-cases (is_ref t)) [
    | inl reference ↦ simp reference
    | inr value ↦ elim (Bool-cases (ltb j depth)) [
      | inl shown ↦ simp (value, shown)
      | inr hidden ↦ simp (value, hidden)
    ]
  ]

  -- The slots of a stack are its typed references, from the top on.
  read_slots-slots :
      (j : ℕ) (ts : List WahType) (ps : List ℕ)
      → read_slots read base depth (slots j ts ps) ≡ refs_from j ts (read_slots read base depth ps)
  unfolding slots typed_roots
  read_slots-slots j [] ps =
      ap (λ l. onto (typed_roots read (base + j * sizeof_value) l) (read_slots read base depth ps))
        (take_nil (depth - j))
  read_slots-slots j (t ∷ ts) ps =
      let ih =
        read_slots-slots (suc j) ts (next_slots j t ps)
        ∙ ap (refs_from (suc j) ts) (read_slots-next j t ps) in
      elim (Bool-cases (ltb j depth)) [
        | inl shown ↦
            ih
            ∙ ap
                (λ b. refs_from (suc j) ts (
                  if b
                  then if is_ref t
                    then read (base + j * sizeof_value) ∷ read_slots read base depth ps
                    else read_slots read base depth ps
                  else read_slots read base depth ps))
                shown
            ∙ sym (refs_from-cons j t ts (read_slots read base depth ps) (ground arith))
        | inr hidden ↦
            ih
            ∙ refs_from-end (suc j) ts _ (ground arith)
            ∙ simp hidden refl
            ∙ sym (refs_from-end j (t ∷ ts) (read_slots read base depth ps) (ground arith))
      ]

-- Every ref map of a function, whatever steps of the validator and captures come before and after its
-- own capture: at its poll, the collector's roots in the operands of the frame are the references of
-- the operand stack that the map was captured from, as far as the operands are live, the topmost one
-- first; and there are none if it was captured in unreachable code.
pub operand_roots-exact :
    {v : Context} {m : RefMaps} {ss : List (List WahType)} (a : Analysis v m ss) (s : List WahType)
    (read : ℕ → ℕ) (next_base : ℕ) (f : CallFrame) (code : CodeBody)
    → get_elem? ss f.poll_idx ≡ some s
    → code.poll_ref_tops ≡ m.poll_ref_tops
    → code.ref_nodes ≡ m.ref_nodes
    → operand_roots read next_base f code
      ≡ onto
          (typed_roots read
            (operands f code)
            (take ((next_base - operands f code) / sizeof_value) s))
          []
unfolding operand_roots
operand_roots-exact {v} {m} {ss} a s read next_base f code e p n =
    let (_, polls) = Analysis-Polls a in
    let (top, at, chain) = Polls-at m.ref_nodes m.poll_ref_tops ss f.poll_idx s polls e in
    let base : ℕ = operands f code in
    let depth : ℕ = (next_base - base) / sizeof_value in
    let zero_th : base + 0 * sizeof_value ≡ base = omega arith in
    let all : depth - 0 ≡ depth = omega arith in
    let chain' = subst (λ nodes. Chain nodes top (slots 0 s [])) (sym n) chain in
    let reads =
      node_roots-Chain read base depth code.ref_nodes (length code.ref_nodes) top (slots 0 s [])
        chain' (Chain-bound chain') in
    let found : get_elem? code.poll_ref_tops f.poll_idx ≡ some top =
      ap (λ l. get_elem? l f.poll_idx) p ∙ at in
    simp (operand_roots, found)
      (reads
        ∙ read_slots-slots read base depth 0 s []
        ∙ ap (λ b. onto (typed_roots read b (take (depth - 0) s)) []) zero_th
        ∙ ap (λ d. onto (typed_roots read base (take d s)) []) all)
