-- ===== src/Validation/RefMap/Captures.antt =====
-- A capture of the operand stack (WAH_CAPTURE_REF_MAP).
use mathlib.Core.Path.{subst}
use wah.Base.{
  append_nil, append_assoc, ℕ, zero, suc, ◌+◌, ◌≤◌, ◌≡◌, refl, sym, ap, ◌∙◌, min, false, List, [],
  ◌∷◌, ◌++◌, length, take, drop, get_or, arith, Bool-cases, inl, inr, if◌then◌else◌,
}
use wah.Types.{WahType, bot, is_ref}
use wah.Gc.Roots.{RefNode}
use wah.Validation.{Context}
use wah.Validation.RefMap.{
  RefMaps, data_of, fill_nodes, fill_tops, next_nodes, next_top, common_depth, captured,
  capture_ref_map,
}
use wah.Validation.RefMap.Unchanged.{Unchanged, length-data_of}
use wah.Validation.RefMap.Chains.{Chain, ends, Chain-++, next_nodes-Chain, next_slots, slots, Tops}
use wah.Validation.RefMap.Common.{take++drop, common_depth-agrees}

pub fill_nodes-extends :
    (nodes : List RefNode) (j top : ℕ) (ts : List WahType)
    → (more : List RefNode) × (fill_nodes nodes j top ts ≡ nodes ++ more)
unfolding fill_nodes
fill_nodes-extends nodes j top [] = ([], sym (append_nil nodes))
fill_nodes-extends nodes j top (t ∷ ts) = elim (Bool-cases (is_ref t)) [
  | inr not_ref ↦ simp not_ref (fill_nodes-extends nodes (suc j) top ts)
  | inl reference ↦
      let node : RefNode = record { parent = top; pos = j } in
      let (more, e) = fill_nodes-extends (nodes ++ node ∷ []) (suc j) (suc (length nodes)) ts in
      simp reference (node ∷ more, e ∙ append_assoc nodes (node ∷ []) more)
]

Chain-fill_nodes :
    (nodes : List RefNode) (j top : ℕ) (ts : List WahType) {n : ℕ} {ps : List ℕ}
    → Chain nodes n ps
    → Chain (fill_nodes nodes j top ts) n ps
Chain-fill_nodes nodes j top ts {n} {ps} c =
    let (more, e) = fill_nodes-extends nodes j top ts in
    subst (λ l. Chain l n ps) (sym e) (Chain-++ more c)

fill_tops-Tops :
    (nodes : List RefNode) (j top : ℕ) (ts : List WahType) (ps : List ℕ)
    → Chain nodes top ps
    → Tops (fill_nodes nodes j top ts) j ts ps (top ∷ fill_tops nodes j top ts)
unfolding fill_nodes fill_tops Tops
fill_tops-Tops nodes j top [] ps c = c
fill_tops-Tops nodes j top (t ∷ ts) ps c = (
  Chain-fill_nodes nodes j top (t ∷ ts) c,
  fill_tops-Tops (next_nodes nodes j top t) (suc j) (next_top nodes top t) ts (next_slots j t ps)
      (next_nodes-Chain nodes j top t ps c),
)

-- The slots of the prefixes that are kept, and then the new ones.
captured-Tops :
    (common j at : ℕ) (nodes : List RefNode) (ts ds : List WahType) (ps tops : List ℕ)
    → j + common ≡ at
    → common ≤ length ts
    → take common ts ≡ take common ds
    → Tops nodes j ts ps tops
    → Tops
        (fill_nodes nodes at (get_or tops common 0) (drop common ds))
        j
        ds
        ps
        (take (suc common) tops ++ fill_tops nodes at (get_or tops common 0) (drop common ds))
unfolding Tops
captured-Tops common j at nodes ts ds ps [] i h e c = absurd c
captured-Tops zero j at nodes [] ds ps (top ∷ tops) i h e c =
    subst (λ k. Tops (fill_nodes nodes k top ds) j ds ps (top ∷ fill_tops nodes k top ds))
      (omega (arith, i)) (fill_tops-Tops nodes j top ds ps c)
captured-Tops zero j at nodes (t ∷ ts) ds ps (top ∷ tops) i h e c =
    subst (λ k. Tops (fill_nodes nodes k top ds) j ds ps (top ∷ fill_tops nodes k top ds))
      (omega (arith, i)) (fill_tops-Tops nodes j top ds ps c.0)
captured-Tops (suc common) j at nodes [] ds ps (top ∷ tops) i h e c = absurd (omega (arith, h))
captured-Tops (suc common) j at nodes (t ∷ ts) [] ps (top ∷ tops) i h e c =
    absurd (omega (arith, ap length e))
captured-Tops (suc common) j at nodes (t ∷ ts) (d ∷ ds) ps (top ∷ tops) i h e c =
    let same : t ≡ d = ap (λ l. get_or l 0 bot) e in
    (
      Chain-fill_nodes nodes at (get_or tops common 0) (drop common ds) c.0,
      captured-Tops common (suc j) at nodes ts ds (next_slots j d ps) tops (omega (arith, i))
          (omega (arith, h)) (ap (drop 1) e)
          (subst (λ x. Tops nodes (suc j) ts (next_slots j x ps) tops) same c.1),
    )

last-Chain :
    (nodes : List RefNode) (j : ℕ) (ts : List WahType) (ps tops : List ℕ)
    → Tops nodes j ts ps tops
    → Chain nodes (get_or tops (length ts) 0) (slots j ts ps)
unfolding Tops slots
last-Chain nodes j ts ps [] c = absurd c
last-Chain nodes j [] ps (top ∷ tops) c = c
last-Chain nodes j (t ∷ ts) ps (top ∷ tops) c =
    last-Chain nodes (suc j) ts (next_slots j t ps) tops c.1

-- The slots of the captured stack are right, and what is below the low-water mark is still on the stack.
pub record IsCaptured (m : RefMaps) (v : Context) : Type 0 where
  pub tops : Tops m.ref_nodes 0 m.captured_types [] m.captured_tops
  pub unchanged : Unchanged m.captured_types v

-- The references of the stack, or none in unreachable code.
abbrev pub snapshot : Context → List WahType
snapshot v = if v.is_unreachable then [] else data_of v.type_stack

-- What a capture adds: more slots, and a map that leads to the references of the stack.
pub record Captured (v : Context) (m n : RefMaps) : Type 0 where
  pub more : List RefNode
  pub extends : n.ref_nodes ≡ m.ref_nodes ++ more
  pub top : ℕ
  pub polled : n.poll_ref_tops ≡ m.poll_ref_tops ++ top ∷ []
  pub chain : Chain n.ref_nodes top (slots 0 (snapshot v) [])

capture_live :
    (v : Context) (m : RefMaps)
    → IsCaptured m v
    → v.is_unreachable ≡ false
    → Captured v m (
        captured
          (common_depth v.lwm m.captured_types (data_of v.type_stack))
          (data_of v.type_stack)
          m)
      × IsCaptured
          (captured
            (common_depth v.lwm m.captured_types (data_of v.type_stack))
            (data_of v.type_stack)
            m)
          (record v { lwm = length v.type_stack })
capture_live v m i live =
    let ds = data_of v.type_stack in
    let k : ℕ = common_depth v.lwm m.captured_types ds in
    let (within, agree) = common_depth-agrees v m.captured_types i.unchanged in
    let from : ℕ = get_or m.captured_tops k 0 in
    let (more, e) = fill_nodes-extends m.ref_nodes k from (drop k ds) in
    let tops =
      captured-Tops k 0 k m.ref_nodes m.captured_types ds [] m.captured_tops (omega arith) within
        agree i.tops in
    let now : take k m.captured_types ++ drop k ds ≡ ds =
      ap (λ l. l ++ drop k ds) agree ∙ take++drop k ds in
    let len : length ds ≡ length v.type_stack = length-data_of v.type_stack in
    (
      record {
        more = more;
        extends = e;
        top =
            get_or (take (suc k) m.captured_tops ++ fill_tops m.ref_nodes k from (drop k ds))
              (length ds) 0;
        polled = refl;
        chain = simp live (last-Chain (fill_nodes m.ref_nodes k from (drop k ds)) 0 ds [] _ tops);
      },
      record {
        tops =
            subst
              (λ l.
                Tops (fill_nodes m.ref_nodes k from (drop k ds)) 0 l []
                  (take (suc k) m.captured_tops ++ fill_tops m.ref_nodes k from (drop k ds)))
              (sym now) tops;
        unchanged = record {
          mark = omega arith;
          same =
              ap (take (min (length v.type_stack) (length (take k m.captured_types ++ drop k ds))))
                (sym now);
        };
      },
    )

pub capture_ref_map-Captured :
    (v : Context) (m : RefMaps)
    → IsCaptured m v
    → Captured v m (capture_ref_map v m).1
      × IsCaptured (capture_ref_map v m).1 (capture_ref_map v m).0
unfolding capture_ref_map slots
capture_ref_map-Captured v m i = elim (Bool-cases v.is_unreachable) [
  | inr live ↦
      let (a, b) = capture_live v m i live in
      simp live (
        a,
        record {
          tops = b.tops;
          unchanged = record { mark = b.unchanged.mark; same = b.unchanged.same };
        },
      )
  | inl dead ↦ simp dead (
    record {
      more = [];
      extends = sym (append_nil m.ref_nodes);
      top = 0;
      polled = refl;
      chain = simp dead ends;
    },
    record {
      tops = i.tops;
      unchanged = record { mark = i.unchanged.mark; same = i.unchanged.same };
    },
  )
]
