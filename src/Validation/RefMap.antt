-- ===== src/Validation/RefMap.antt =====
-- The ref maps of a function (WAH_CAPTURE_REF_MAP of `wah_analyze_stream`). Growing an array succeeds.
pub mod Unchanged
pub mod Lowering
pub mod Chains
pub mod Common
pub mod Captures
pub mod Polls
mod Tests
use wah.Base.{
  ℕ, zero, suc, ◌+◌, min, Bool, true, false, if◌then◌else◌, List, [], ◌∷◌, ◌++◌, length, take, drop,
  get_or,
}
use wah.Base.Int.{◌==ℤ◌}
use wah.Types.{WahType, is_ref}
use wah.Gc.Roots.{RefNode}
use wah.Validation.{Context}

abbrev pub onto {ℓ} : {A : Type ℓ} → List A → List A → List A
onto [] acc = acc
onto (t ∷ ts) acc = onto ts (t ∷ acc)

-- `type_stack.data`, from the bottom on.
abbrev pub data_of : List WahType → List WahType
data_of ts = onto ts []

-- The captured stack with the topmost reference slot of each of its prefixes, the slots, and the topmost
-- one of each map. A slot's index counts from 1.
pub record RefMaps : Type 0 where
  pub captured_types : List WahType
  pub captured_tops : List ℕ
  pub ref_nodes : List RefNode
  pub poll_ref_tops : List ℕ

abbrev pub no_maps : RefMaps
no_maps = record { captured_types = []; captured_tops = 0 ∷ []; ref_nodes = []; poll_ref_tops = [] }

-- The loop over `_common`, on the types that are left of the captured and of the current stack.
unfoldable pub advance_common : ℕ → List WahType → List WahType → ℕ
advance_common common [] ds = common
advance_common common (c ∷ cs) [] = common
advance_common common (c ∷ cs) (d ∷ ds) =
    let rest = advance_common (suc common) cs ds in if c ==ℤ d then rest else common

abbrev pub next_nodes : List RefNode → ℕ → ℕ → WahType → List RefNode
next_nodes nodes j top t =
    if is_ref t then nodes ++ (record { parent = top; pos = j }) ∷ [] else nodes

abbrev pub next_top : List RefNode → ℕ → WahType → ℕ
next_top nodes top t = if is_ref t then suc (length nodes) else top

-- The loop over `_j`: the slots behind it, and the topmost ones of the prefixes it adds.
unfoldable pub fill_nodes : List RefNode → ℕ → ℕ → List WahType → List RefNode
fill_nodes nodes j top [] = nodes
fill_nodes nodes j top (t ∷ ts) =
    fill_nodes (next_nodes nodes j top t) (suc j) (next_top nodes top t) ts

unfoldable pub fill_tops : List RefNode → ℕ → ℕ → List WahType → List ℕ
fill_tops nodes j top [] = []
fill_tops nodes j top (t ∷ ts) =
    next_top nodes top t ∷ fill_tops (next_nodes nodes j top t) (suc j) (next_top nodes top t) ts

abbrev pub common_depth : ℕ → List WahType → List WahType → ℕ
common_depth lwm captured data_ =
    let from = min lwm (length captured) in
    advance_common from (drop from captured) (drop from data_)

abbrev pub captured : ℕ → List WahType → RefMaps → RefMaps
captured common data_ m =
    let top = get_or m.captured_tops common 0 in
    let tops =
      take (suc common) m.captured_tops ++ fill_tops m.ref_nodes common top (drop common data_) in
    record {
      captured_types = take common m.captured_types ++ drop common data_;
      captured_tops = tops;
      ref_nodes = fill_nodes m.ref_nodes common top (drop common data_);
      poll_ref_tops = m.poll_ref_tops ++ get_or tops (length data_) 0 ∷ [];
    }

-- WAH_CAPTURE_REF_MAP: unreachable code has an empty map.
unfoldable pub capture_ref_map : Context → RefMaps → Context × RefMaps
unfolding advance_common fill_nodes fill_tops
capture_ref_map v m =
    if v.is_unreachable then (v, record m { poll_ref_tops = m.poll_ref_tops ++ 0 ∷ [] }) else (
      record v { lwm = length v.type_stack },
      captured (common_depth v.lwm m.captured_types (data_of v.type_stack)) (data_of v.type_stack)
          m,
    )
