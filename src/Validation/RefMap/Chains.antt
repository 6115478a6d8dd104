-- ===== src/Validation/RefMap/Chains.antt =====
-- Chains of reference slots, as the collector reads them.
use wah.Base.{
  get_elem?-++, get_elem?_middle, ℕ, zero, suc, ◌+◌, ◌-◌, ◌*◌, ◌≤◌, ◌≡◌, refl, ltb, ◌==◌, false,
  List, [], ◌∷◌, ◌++◌, length, get_elem?, some, arith, Bool-cases, inl, inr, if◌then◌else◌,
}
use wah.Types.{WahType, is_ref}
use wah.Lifecycle.State.{sizeof_value}
use wah.Gc.Roots.{RefNode, node_roots}
use wah.Validation.RefMap.{next_nodes, next_top}

-- The positions of the slots from the topmost one, whose index is counted from 1, on down.
pub data Chain (nodes : List RefNode) : ℕ → List ℕ → Type 0 where
  ends : Chain nodes 0 []
  slot :
      (n : ℕ) (node : RefNode) {ps : List ℕ}
      → get_elem? nodes n ≡ some node
      → node.parent ≤ n
      → Chain nodes node.parent ps
      → Chain nodes (suc n) (node.pos ∷ ps)

pub Chain-++ :
    {nodes : List RefNode} {n : ℕ} {ps : List ℕ} (more : List RefNode)
    → Chain nodes n ps
    → Chain (nodes ++ more) n ps
Chain-++ more ends = ends
Chain-++ {nodes} more (slot n node e h c) =
    slot n node (get_elem?-++ n nodes more e) h (Chain-++ more c)

pub Chain-bound : {nodes : List RefNode} {n : ℕ} {ps : List ℕ} → Chain nodes n ps → n ≤ length nodes
Chain-bound ends = omega arith
Chain-bound {nodes} (slot n node e h c) = go n nodes e
  where
    go : (n : ℕ) (xs : List RefNode) {x : RefNode} → get_elem? xs n ≡ some x → suc n ≤ length xs
    go n [] e = cc
    go zero (x ∷ xs) e = omega arith
    go (suc n) (x ∷ xs) e = omega (arith, go n xs e)

-- The positions of references, the topmost first, on those below.
abbrev pub next_slots : ℕ → WahType → List ℕ → List ℕ
next_slots j t ps = if is_ref t then j ∷ ps else ps

unfoldable pub slots : ℕ → List WahType → List ℕ → List ℕ
slots j [] ps = ps
slots j (t ∷ ts) ps = slots (suc j) ts (next_slots j t ps)

pub next_nodes-Chain :
    (nodes : List RefNode) (j top : ℕ) (t : WahType) (ps : List ℕ)
    → Chain nodes top ps
    → Chain (next_nodes nodes j top t) (next_top nodes top t) (next_slots j t ps)
next_nodes-Chain nodes j top t ps c = elim (Bool-cases (is_ref t)) [
  | inr not_ref ↦ simp not_ref c
  | inl reference ↦
      let node : RefNode = record { parent = top; pos = j } in
      simp reference (
        slot (length nodes) node (get_elem?_middle nodes node []) (Chain-bound c)
          (Chain-++ (node ∷ []) c))
]

-- Each prefix of the stack, with the slots of what is below it: its topmost slot leads to all its slots.
unfoldable pub Tops : List RefNode → ℕ → List WahType → List ℕ → List ℕ → Type 0
Tops nodes j ts ps [] = ⊥
Tops nodes j [] ps (top ∷ tops) = Chain nodes top ps
Tops nodes j (t ∷ ts) ps (top ∷ tops) =
    Chain nodes top ps × Tops nodes (suc j) ts (next_slots j t ps) tops

module _ (read : ℕ → ℕ) (base depth : ℕ) where
  -- The references at the positions below a depth.
  abbrev pub read_slots : List ℕ → List ℕ
  read_slots [] = []
  read_slots (p ∷ ps) =
      let rest = read_slots ps in
      if ltb p depth then read (base + p * sizeof_value) ∷ rest else rest

  -- The collector reads the slots of a chain.
  pub node_roots-Chain :
      (nodes : List RefNode) (fuel n : ℕ) (ps : List ℕ)
      → Chain nodes n ps
      → n ≤ fuel
      → node_roots read base depth nodes fuel n ≡ read_slots ps
  unfolding node_roots
  node_roots-Chain nodes zero n ps ends h = refl
  node_roots-Chain nodes (suc fuel) n ps ends h = refl
  node_roots-Chain nodes zero n ps (slot m node e k c) h = absurd (omega (arith, h))
  node_roots-Chain nodes (suc fuel) n ps (slot m node {ps = qs} e k c) h =
      let before : suc m - 1 ≡ m = omega arith in
      let ih = node_roots-Chain nodes fuel node.parent qs c (omega (arith, h, k)) in
      let more : (suc m == 0) ≡ false = ground arith in
      simp (node_roots, more, before, e, ih, read_slots)
