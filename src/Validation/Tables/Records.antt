-- ===== src/Validation/Tables/Records.antt =====
-- The records of a br_table, by label.
use mathlib.Core.Path.{subst}
use wah.Base.{
  append_nil, append_assoc, get_elem?-++, get_elem?_middle, ℕ, suc, ◌+◌, ◌%◌, ◌^◌, ◌≤◌, ◌<◌, ◌≡◌,
  ◌≢◌, sym, ap, ◌∙◌, true, false, leb, ◌==◌, List, [], ◌∷◌, ◌++◌, length, get_or, get_elem?, set,
  length-set, length-append, length-replicate, get_or-set_self, get_or-set_ne, some, arith,
  Bool-cases, inl, inr, ==_iff,
}
use wah.Status.{ok, ok-inj, validation_failed}
use wah.Validation.Control.Steps.{ensure-ok}
use wah.Validation.Tables.{
  Labels, next_serial, Grouping, new_record, add_target, group_targets, record_cap, no_groups,
}
use wah.Validation.Tables.Stamps.{
  Below, count_to, count_to_le, count_to-set, Below-get_or, count_to_fresh, Below-set, Below-mono,
  Below-replicate, IsStamped,
}

-- Each target's record has its label.
abbrev pub Named : List ℕ → List ℕ → List ℕ → Type 0
Named symbols [] [] = Unit {0}
Named symbols [] (label ∷ labels) = ⊥
Named symbols (r ∷ rs) [] = ⊥
Named symbols (r ∷ rs) (label ∷ labels) =
    (get_elem? symbols r ≡ some label) × Named symbols rs labels

Named-++ :
    (symbols more rs labels : List ℕ) → Named symbols rs labels → Named (symbols ++ more) rs labels
Named-++ symbols more [] [] n = tt
Named-++ symbols more [] (label ∷ labels) n = absurd n
Named-++ symbols more (r ∷ rs) [] n = absurd n
Named-++ symbols more (r ∷ rs) (label ∷ labels) n =
    (get_elem?-++ r symbols more n.0, Named-++ symbols more rs labels n.1)

Named-last :
    (symbols rs labels : List ℕ) (r label : ℕ)
    → Named symbols rs labels
    → get_elem? symbols r ≡ some label
    → Named symbols (rs ++ r ∷ []) (labels ++ label ∷ [])
Named-last symbols [] [] r label n e = (e, tt)
Named-last symbols [] (x ∷ labels) r label n e = absurd n
Named-last symbols (y ∷ rs) [] r label n e = absurd n
Named-last symbols (y ∷ rs) (x ∷ labels) r label n e =
    (n.0, Named-last symbols rs labels r label n.1 e)

-- What holds of the groups behind the given labels.
record IsGrouped (control_sp : ℕ) (labels : List ℕ) (g : Grouping) : Type 0 where
  stamped : IsStamped g.labels
  seen :
      (label : ℕ)
      → (get_or g.labels.stamps label 0 == g.labels.serial) ≡ true
      → get_elem? g.symbols (get_or g.labels.records label 0) ≡ some label
  named : Named g.symbols g.targets labels
  counted : length g.symbols ≡ count_to (suc control_sp) g.labels.serial g.labels.stamps
  few : length g.symbols ≤ length labels

-- A table begins with a serial that no stamp has.
abbrev Fresh : Labels → Type 0
Fresh l = IsStamped l × Below l.serial l.stamps × (0 < l.serial)

next_serial-Fresh : (l : Labels) → IsStamped l → Fresh (next_serial l)
next_serial-Fresh l s = elim (Bool-cases ((l.serial + 1) % 2 ^ 32 == 0)) [
  | inl wraps ↦ simp wraps (
    record {
      room = length-replicate (length l.stamps) 0 ∙ s.room;
      room_records = s.room_records;
      word = omega arith;
      earlier = Below-replicate 2 (length l.stamps) 0 (omega arith);
    },
    Below-replicate 1 (length l.stamps) 0 (omega arith),
    omega arith,
  )
  | inr goes_on ↦
      let fits : l.serial + 1 < 2 ^ 32 = ground (arith, goes_on, s.word) in
      let e : (l.serial + 1) % 2 ^ 32 ≡ suc l.serial = omega (arith, fits) in
      let up : Below ((l.serial + 1) % 2 ^ 32) l.stamps =
        subst (λ n. Below n l.stamps) (sym e) s.earlier in
      let up' : Below (suc ((l.serial + 1) % 2 ^ 32)) l.stamps =
        Below-mono _ _ l.stamps (omega arith) up in
      simp goes_on (
        record {
          room = s.room;
          room_records = s.room_records;
          word = omega (arith, fits);
          earlier = up';
        },
        up,
        omega (arith, e),
      )
]

no_groups-IsGrouped :
    (control_sp : ℕ) (l : Labels) → IsStamped l → IsGrouped control_sp [] (no_groups l)
no_groups-IsGrouped control_sp l s =
    let (stamped, fresh, positive) = next_serial-Fresh l s in
    let m = next_serial l in
    record {
      stamped = stamped;
      seen = λ label h.
          absurd
            (omega (arith, Below-get_or m.serial label m.stamps positive fresh, (==_iff _ _).0 h));
      named = tt;
      counted = sym (count_to_fresh (suc control_sp) m.serial m.stamps fresh);
      few = omega arith;
    }

-- A label that has no record yet gets one.
new_record-IsGrouped :
    (control_sp label : ℕ) (labels : List ℕ) (g : Grouping)
    → control_sp ≤ 256
    → label ≤ control_sp
    → (get_or g.labels.stamps label 0 == g.labels.serial) ≡ false
    → length g.symbols ≤ length labels
    → IsGrouped control_sp labels g
    → (get_elem? (new_record g label).symbols (get_or (new_record g label).labels.records label 0)
        ≡ some label)
      × (length (new_record g label).symbols ≤ suc (length labels))
      × IsStamped (new_record g label).labels
      × ((other : ℕ)
          → (get_or (new_record g label).labels.stamps other 0
              == (new_record g label).labels.serial)
            ≡ true
          → get_elem?
              (new_record g label).symbols
              (get_or (new_record g label).labels.records other 0)
            ≡ some other)
      × (length (new_record g label).symbols
          ≡ count_to
              (suc control_sp)
              (new_record g label).labels.serial
              (new_record g label).labels.stamps)
new_record-IsGrouped control_sp label labels g sp h e few i =
    let serial : ℕ = g.labels.serial in
    let n : ℕ = length g.symbols in
    let counts = count_to_le (suc control_sp) serial g.labels.stamps in
    let small : n % 2 ^ 16 ≡ n = omega (arith, i.counted, counts, sp) in
    let at : get_or (set g.labels.records label (n % 2 ^ 16)) label 0 ≡ n =
      get_or-set_self g.labels.records label (n % 2 ^ 16) 0
        (omega (arith, i.stamped.room_records, sp, h))
      ∙ small in
    let here : get_elem? (g.symbols ++ label ∷ [])
          (get_or (set g.labels.records label (n % 2 ^ 16)) label 0)
        ≡ some label =
      ap (get_elem? (g.symbols ++ label ∷ [])) at ∙ get_elem?_middle g.symbols label [] in
    let one_more : length (g.symbols ++ label ∷ []) ≡ suc n =
      omega (arith, length-append g.symbols (label ∷ [])) in
    (
      here,
      omega (arith, one_more, few),
      record {
        room = length-set g.labels.stamps label serial ∙ i.stamped.room;
        room_records = length-set g.labels.records label (n % 2 ^ 16) ∙ i.stamped.room_records;
        word = i.stamped.word;
        earlier =
            Below-set (suc serial) g.labels.stamps label serial i.stamped.earlier (omega arith);
      },
      λ other k. elim (Bool-cases (label == other)) [
        | inl same ↦
            subst
              (λ x.
                get_elem? (g.symbols ++ label ∷ [])
                  (get_or (set g.labels.records label (n % 2 ^ 16)) x 0)
                ≡ some x)
              ((==_iff label other).0 same) here
        | inr different ↦
            let ne : label ≢ other = λ q. ground (arith, (==_iff label other).1 q, different) in
            let before = get_or-set_ne g.labels.stamps label other serial 0 ne in
            let stays = get_or-set_ne g.labels.records label other (n % 2 ^ 16) 0 ne in
            let was = i.seen other (ap (λ x. x == serial) (sym before) ∙ k) in
            ap (get_elem? (g.symbols ++ label ∷ [])) stays
            ∙ get_elem?-++ _ g.symbols (label ∷ []) was
      ],
      one_more
          ∙ ap suc i.counted
          ∙ sym (
              count_to-set (suc control_sp) serial label g.labels.stamps (omega (arith, h))
                (omega (arith, i.stamped.room, sp, h)) e),
    )

add_target-IsGrouped :
    (control_sp label : ℕ) (labels : List ℕ) (g : Grouping)
    → control_sp ≤ 256
    → label ≤ control_sp
    → IsGrouped control_sp labels g
    → IsGrouped control_sp (labels ++ label ∷ []) (add_target g label)
add_target-IsGrouped control_sp label labels g sp h i =
    let longer = length-append labels (label ∷ []) in
    elim (Bool-cases (get_or g.labels.stamps label 0 == g.labels.serial)) [
      | inl known ↦ simp known (record {
        stamped = i.stamped;
        seen = i.seen;
        named = Named-last g.symbols g.targets labels _ label i.named (i.seen label known);
        counted = i.counted;
        few = omega (arith, i.few, longer);
      })
      | inr new ↦
          let (here, few, stamped, seen, counted) =
            new_record-IsGrouped control_sp label labels g sp h new i.few i in
          simp new (record {
            stamped = stamped;
            seen = seen;
            named =
                Named-last (g.symbols ++ label ∷ []) g.targets labels _ label
                  (Named-++ g.symbols (label ∷ []) g.targets labels i.named) here;
            counted = counted;
            few = omega (arith, few, longer);
          })
    ]

group_targets-IsGrouped :
    (control_sp : ℕ) (done labels : List ℕ) (g h : Grouping)
    → control_sp ≤ 256
    → IsGrouped control_sp done g
    → group_targets control_sp labels g ≡ ok h
    → IsGrouped control_sp (done ++ labels) h
unfolding group_targets
group_targets-IsGrouped control_sp done [] g h sp i e =
    subst (λ l. IsGrouped control_sp l h) (sym (append_nil done))
      (subst (IsGrouped control_sp done) (ok-inj e) i)
group_targets-IsGrouped control_sp done (label ∷ labels) g h sp i e =
    let (fits, k) = ensure-ok (leb label control_sp) validation_failed _ e in
    subst (λ l. IsGrouped control_sp l h) (append_assoc done (label ∷ []) labels)
      (group_targets-IsGrouped control_sp (done ++ label ∷ []) labels (add_target g label) h sp
        (add_target-IsGrouped control_sp label done g sp (ground (arith, fits)) i) k)

-- What grouping the targets leads to.
pub group_targets-Named :
    (num_targets control_sp : ℕ) (labels : List ℕ) (l : Labels) (g : Grouping)
    → length labels ≡ suc num_targets
    → control_sp ≤ 256
    → IsStamped l
    → group_targets control_sp labels (no_groups l) ≡ ok g
    → Named g.symbols g.targets labels
      × (length g.symbols ≤ record_cap num_targets control_sp)
      × IsStamped g.labels
group_targets-Named num_targets control_sp labels l g n sp s e =
    let i =
      group_targets-IsGrouped control_sp [] labels (no_groups l) g sp
        (no_groups-IsGrouped control_sp l s) e in
    (
      i.named,
      ground (
        arith,
        i.few,
        i.counted,
        n,
        count_to_le (suc control_sp) g.labels.serial g.labels.stamps,
      ),
      i.stamped,
    )
