-- ===== src/Layout/Place.antt =====
-- The placement of one field among the free slots and the new chunk.
use wah.Base.{ℕ, ◌+◌, ◌-◌, ◌%◌, ◌≡◌, Bool, true, false, arith}
use wah.Base.{leb, List, [], ◌∷◌, u32_max}
use wah.Status.{Result, ok, err, ensure, ◌>>=◌, ◌>>◌, too_large}
use wah.Layout.{
  Layout, slot_pop, pop_larger, split_slot, slot_push, insert_offset, record_tail_slots, place,
}
use wah.Layout.FreeSlots.{covers, list_covers, free_covers, free_bytes, Aligned, AtMostOne}

pub data IsFieldSize : ℕ → Type 0 where
  one : IsFieldSize 1
  two : IsFieldSize 2
  four : IsFieldSize 4
  eight : IsFieldSize 8
  sixteen : IsFieldSize 16

pub record Valid (l : Layout) : Type 0 where
  pub aligned : Aligned l.slots
  pub at_most_one : AtMostOne l.slots
  pub whole_chunks : l.frontier % 16 ≡ 0

-- `l'` is `l` with a field of `n` bytes placed at `o`.
pub record Placed (l l' : Layout) (o n : ℕ) : Type 0 where
  pub bytes_used :
      (p : ℕ)
      → covers 0 l'.frontier p + free_covers l.slots p
        ≡ covers 0 l.frontier p + free_covers l'.slots p + covers o n p
  pub count_used : l'.frontier + free_bytes l.slots ≡ l.frontier + free_bytes l'.slots + n
  pub field_aligned : o % n ≡ 0
  pub after : Valid l'

abbrev pub PlacedOk : Layout → ℕ → Result (ℕ × Layout) → Type 0
PlacedOk l n (ok (o, l')) = Placed l l' o n
PlacedOk l n (err e) = Unit

of_bump :
    (l : Layout) (n f : ℕ) (b : Bool) (k : ℕ × ℕ → Result (ℕ × Layout))
    → PlacedOk l n (k (f, f + 16))
    → PlacedOk l n (ensure b too_large >> ok (f, f + 16) >>= k)
of_bump l n f true k h = h
of_bump l n f false k h = tt

abbrev layout : List ℕ → List ℕ → List ℕ → List ℕ → ℕ → Layout
layout s1 s2 s4 s8 f = record {
  slots = record { slots1 = s1; slots2 = s2; slots4 = s4; slots8 = s8 };
  frontier = f;
}

pub place_one :
    (s1 s2 s4 s8 : List ℕ) (f : ℕ)
    → Valid (layout s1 s2 s4 s8 f)
    → PlacedOk (layout s1 s2 s4 s8 f) 1 (place (layout s1 s2 s4 s8 f) 1)
unfolding place slot_pop pop_larger split_slot slot_push insert_offset record_tail_slots list_covers
place_one (o ∷ os) s2 s4 s8 f v = record {
  bytes_used = λ p. ground arith;
  count_used = ground arith;
  field_aligned = ground arith;
  after = record {
    aligned = ground arith;
    at_most_one = ground arith;
    whole_chunks = ground arith;
  };
}
place_one [] (o ∷ os) s4 s8 f v = record {
  bytes_used = λ p. ground arith;
  count_used = ground arith;
  field_aligned = ground arith;
  after = record {
    aligned = ground arith;
    at_most_one = ground arith;
    whole_chunks = ground arith;
  };
}
place_one [] [] (o ∷ os) s8 f v = record {
  bytes_used = λ p. ground arith;
  count_used = ground arith;
  field_aligned = ground arith;
  after = record {
    aligned = ground arith;
    at_most_one = ground arith;
    whole_chunks = ground arith;
  };
}
place_one [] [] [] (o ∷ os) f v = record {
  bytes_used = λ p. ground arith;
  count_used = ground arith;
  field_aligned = ground arith;
  after = record {
    aligned = ground arith;
    at_most_one = ground arith;
    whole_chunks = ground arith;
  };
}
place_one [] [] [] [] f v =
    of_bump _ 1 f (leb f (u32_max - 16))
      (λ p. ok (
        p.0,
        record {
          slots =
              record_tail_slots (record { slots1 = []; slots2 = []; slots4 = []; slots8 = [] }) p.0
                1;
          frontier = p.1;
        },
      ))
      (record {
        bytes_used = λ p. ground arith;
        count_used = ground arith;
        field_aligned = ground arith;
        after = record {
          aligned = ground arith;
          at_most_one = ground arith;
          whole_chunks = ground arith;
        };
      })

pub place_two :
    (s1 s2 s4 s8 : List ℕ) (f : ℕ)
    → Valid (layout s1 s2 s4 s8 f)
    → PlacedOk (layout s1 s2 s4 s8 f) 2 (place (layout s1 s2 s4 s8 f) 2)
unfolding place slot_pop pop_larger split_slot slot_push insert_offset record_tail_slots list_covers
place_two s1 (o ∷ os) s4 s8 f v = record {
  bytes_used = λ p. ground arith;
  count_used = ground arith;
  field_aligned = ground arith;
  after = record {
    aligned = ground arith;
    at_most_one = ground arith;
    whole_chunks = ground arith;
  };
}
place_two s1 [] (o ∷ os) s8 f v = record {
  bytes_used = λ p. ground arith;
  count_used = ground arith;
  field_aligned = ground arith;
  after = record {
    aligned = ground arith;
    at_most_one = ground arith;
    whole_chunks = ground arith;
  };
}
place_two s1 [] [] (o ∷ os) f v = record {
  bytes_used = λ p. ground arith;
  count_used = ground arith;
  field_aligned = ground arith;
  after = record {
    aligned = ground arith;
    at_most_one = ground arith;
    whole_chunks = ground arith;
  };
}
place_two s1 [] [] [] f v =
    of_bump _ 2 f (leb f (u32_max - 16))
      (λ p. ok (
        p.0,
        record {
          slots =
              record_tail_slots (record { slots1 = s1; slots2 = []; slots4 = []; slots8 = [] }) p.0
                2;
          frontier = p.1;
        },
      ))
      (record {
        bytes_used = λ p. ground arith;
        count_used = ground arith;
        field_aligned = ground arith;
        after = record {
          aligned = ground arith;
          at_most_one = ground arith;
          whole_chunks = ground arith;
        };
      })

pub place_four :
    (s1 s2 s4 s8 : List ℕ) (f : ℕ)
    → Valid (layout s1 s2 s4 s8 f)
    → PlacedOk (layout s1 s2 s4 s8 f) 4 (place (layout s1 s2 s4 s8 f) 4)
unfolding place slot_pop pop_larger split_slot slot_push insert_offset record_tail_slots list_covers
place_four s1 s2 (o ∷ os) s8 f v = record {
  bytes_used = λ p. ground arith;
  count_used = ground arith;
  field_aligned = ground arith;
  after = record {
    aligned = ground arith;
    at_most_one = ground arith;
    whole_chunks = ground arith;
  };
}
place_four s1 s2 [] (o ∷ os) f v = record {
  bytes_used = λ p. ground arith;
  count_used = ground arith;
  field_aligned = ground arith;
  after = record {
    aligned = ground arith;
    at_most_one = ground arith;
    whole_chunks = ground arith;
  };
}
place_four s1 s2 [] [] f v =
    of_bump _ 4 f (leb f (u32_max - 16))
      (λ p. ok (
        p.0,
        record {
          slots =
              record_tail_slots (record { slots1 = s1; slots2 = s2; slots4 = []; slots8 = [] }) p.0
                4;
          frontier = p.1;
        },
      ))
      (record {
        bytes_used = λ p. ground arith;
        count_used = ground arith;
        field_aligned = ground arith;
        after = record {
          aligned = ground arith;
          at_most_one = ground arith;
          whole_chunks = ground arith;
        };
      })

pub place_eight :
    (s1 s2 s4 s8 : List ℕ) (f : ℕ)
    → Valid (layout s1 s2 s4 s8 f)
    → PlacedOk (layout s1 s2 s4 s8 f) 8 (place (layout s1 s2 s4 s8 f) 8)
unfolding place slot_pop pop_larger split_slot slot_push insert_offset record_tail_slots list_covers
place_eight s1 s2 s4 (o ∷ os) f v = record {
  bytes_used = λ p. ground arith;
  count_used = ground arith;
  field_aligned = ground arith;
  after = record {
    aligned = ground arith;
    at_most_one = ground arith;
    whole_chunks = ground arith;
  };
}
place_eight s1 s2 s4 [] f v =
    of_bump _ 8 f (leb f (u32_max - 16))
      (λ p. ok (
        p.0,
        record {
          slots =
              record_tail_slots (record { slots1 = s1; slots2 = s2; slots4 = s4; slots8 = [] }) p.0
                8;
          frontier = p.1;
        },
      ))
      (record {
        bytes_used = λ p. ground arith;
        count_used = ground arith;
        field_aligned = ground arith;
        after = record {
          aligned = ground arith;
          at_most_one = ground arith;
          whole_chunks = ground arith;
        };
      })

pub place_sixteen :
    (s1 s2 s4 s8 : List ℕ) (f : ℕ)
    → Valid (layout s1 s2 s4 s8 f)
    → PlacedOk (layout s1 s2 s4 s8 f) 16 (place (layout s1 s2 s4 s8 f) 16)
unfolding place slot_pop pop_larger split_slot slot_push insert_offset record_tail_slots list_covers
place_sixteen s1 s2 s4 s8 f v =
    of_bump _ 16 f (leb f (u32_max - 16))
      (λ p. ok (
        p.0,
        record {
          slots = record { slots1 = s1; slots2 = s2; slots4 = s4; slots8 = s8 };
          frontier = p.1;
        },
      ))
      (record {
        bytes_used = λ p. ground arith;
        count_used = ground arith;
        field_aligned = ground arith;
        after = record {
          aligned = v.aligned;
          at_most_one = ground arith;
          whole_chunks = ground arith;
        };
      })
