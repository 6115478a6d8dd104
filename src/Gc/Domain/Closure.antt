-- ===== src/Gc/Domain/Closure.antt =====
-- The search for the contexts of a link domain (`wah_gc_collect_domain`).
use wah.Base.{
  ℕ, zero, suc, ◌+◌, ◌≤◌, ◌<◌, Bool, true, false, not, ◌&&◌, ◌||◌, ◌==◌, ◌≡◌, ◌⊎◌, inl, inr, refl,
  sym, ap, ◌∙◌, List, [], ◌∷◌, ◌++◌, none, some, length, get_elem?, length-append, arith,
  Bool-cases, Option-cases, ==_iff,
}
use wah.Gc.Marks.{elem, unmarked}
use wah.Gc.Loop.{unmarked-le-length}
use wah.Gc.Domain.{
  World, Domain, neighbours, domain_add, domain_add_all, domain_loop, collect_domain, failed,
  collected, gc_inline_domain_size,
}

elem-append_one : (xs : List ℕ) (c a : ℕ) → elem a (xs ++ c ∷ []) ≡ (elem a xs || a == c)
unfolding elem
elem-append_one [] c a = ground arith
elem-append_one (x ∷ xs) c a = ground (arith, elem-append_one xs c a)

get_elem?-append :
    {A : Type 0} (xs ys : List A) (j : ℕ) → j < length xs → get_elem? (xs ++ ys) j ≡ get_elem? xs j
get_elem?-append [] ys j h = elim h [ ]
get_elem?-append (x ∷ xs) ys zero h = refl
get_elem?-append (x ∷ xs) ys (suc j) h = get_elem?-append xs ys j (omega arith)

-- The contexts that are not found yet.
abbrev unfound : List ℕ → List ℕ → ℕ
unfound universe found = unmarked universe (λ a. elem a found)

unfound-append_le :
    (universe found : List ℕ) (c : ℕ) → unfound universe (found ++ c ∷ []) ≤ unfound universe found
unfolding unmarked
unfound-append_le [] found c = omega arith
unfound-append_le (x ∷ universe) found c =
    ground (arith, unfound-append_le universe found c, elem-append_one found c x)

unfound-append_lt :
    (universe found : List ℕ) (c : ℕ)
    → elem c universe ≡ true
    → elem c found ≡ false
    → unfound universe (found ++ c ∷ []) < unfound universe found
unfolding unmarked elem
unfound-append_lt [] found c h f = ground arith
unfound-append_lt (x ∷ universe) found c h f = elim (Bool-cases (c == x)) [
  | inl e ↦
      let same = (==_iff c x).0 e in
      ground (arith, unfound-append_le universe found c, elem-append_one found c x)
  | inr n ↦ ground (
    arith,
    unfound-append_lt universe found c,
    unfound-append_le universe found c,
    elem-append_one found c x,
  )
]

module _ (realloc_ok : ℕ → Bool) (universe : List ℕ) where
  -- `d` has the contexts of `cs` as well, behind those that it had.
  record Added (cs : List ℕ) (d d' : Domain) : Type 0 where
    found : (a : ℕ) → elem a d'.list ≡ (elem a d.list || (not (a == 0) && elem a cs))
    kept : (j : ℕ) → j < length d.list → get_elem? d'.list j ≡ get_elem? d.list j
    longer : length d.list ≤ length d'.list
    cost : unfound universe d'.list + length d'.list ≤ unfound universe d.list + length d.list

  domain_add_cases :
      (c : ℕ) (d d' : Domain)
      → domain_add realloc_ok c d ≡ some d'
      → (((c == 0 || elem c d.list) ≡ true) × (d'.list ≡ d.list))
        ⊎ (((c == 0 || elem c d.list) ≡ false) × (d'.list ≡ d.list ++ c ∷ []))
  unfolding domain_add
  domain_add_cases c d d' h = ground arith

  domain_add-Added :
      (c : ℕ) (d d' : Domain)
      → (c == 0 ≡ false → elem c universe ≡ true)
      → domain_add realloc_ok c d ≡ some d'
      → Added (c ∷ []) d d'
  unfolding elem
  domain_add-Added c d d' listed h = elim (domain_add_cases c d d' h) [
    | inl (old, e) ↦ record {
      found = λ a. rw e (ground (arith, ==_iff a c));
      kept = λ j _. rw e;
      longer = rw e (omega arith);
      cost = rw e (omega arith);
    }
    | inr (new, e) ↦ record {
      found = λ a. rw e (ground (arith, elem-append_one d.list c a, ==_iff a c));
      kept = λ j lt. rw e (get_elem?-append d.list (c ∷ []) j lt);
      longer = rw e (omega (arith, length-append d.list (c ∷ [])));
      cost = rw e (
          omega (
            arith,
            length-append d.list (c ∷ []),
            unfound-append_lt universe d.list c (listed (ground arith)) (ground arith),
          ));
    }
  ]

  domain_add_all-Added :
      (cs : List ℕ) (d d' : Domain)
      → ((c : ℕ) → elem c cs ≡ true → c == 0 ≡ false → elem c universe ≡ true)
      → domain_add_all realloc_ok cs d ≡ some d'
      → Added cs d d'
  unfolding domain_add_all elem
  domain_add_all-Added [] d d' listed h =
      let e : d'.list ≡ d.list = ground arith in
      record {
        found = λ a. rw e (ground arith);
        kept = λ j _. rw e;
        longer = rw e (omega arith);
        cost = rw e (omega arith);
      }
  domain_add_all-Added (c ∷ cs) d d' listed h = elim (Option-cases (domain_add realloc_ok c d)) [
    | inl e ↦ cc (rw (e, domain_add_all) at h)
    | inr (m, e) ↦
        let one = domain_add-Added c d m (listed c (ground arith)) e in
        let all =
          domain_add_all-Added cs m d' (λ x y z. listed x (ground arith) z)
            (rw (e, domain_add_all) at h) in
        record {
          found = λ a. ground (arith, one.found a, all.found a);
          kept = λ j lt. all.kept j (omega (arith, one.longer)) ∙ one.kept j lt;
          longer = omega (arith, one.longer, all.longer);
          cost = omega (arith, one.cost, all.cost);
        }
  ]

-- The contexts that `ctx` is linked with, directly or through others.
pub data Linked (w : World) (ctx : ℕ) : ℕ → Type 0 where
  self : Linked w ctx ctx
  link :
      {c x : ℕ}
      → Linked w ctx c
      → elem x (neighbours w c) ≡ true
      → (x == 0) ≡ false
      → Linked w ctx x

-- The domain that was found: the linked contexts.
pub record IsDomain (w : World) (ctx : ℕ) (d : Domain) : Type 0 where
  pub start : elem ctx d.list ≡ true
  pub sound : (a : ℕ) → elem a d.list ≡ true → Linked w ctx a
  pub full : (a : ℕ) → Linked w ctx a → elem a d.list ≡ true

elem-get_elem? :
    (xs : List ℕ) (a : ℕ) → elem a xs ≡ true → (j : ℕ) × (j < length xs) × (get_elem? xs j ≡ some a)
unfolding elem
elem-get_elem? [] a h = cc
elem-get_elem? (x ∷ xs) a h = elim (Bool-cases (a == x)) [
  | inl e ↦ (0, omega arith, ap some (sym ((==_iff a x).0 e)))
  | inr n ↦ let (j, lt, e) = elem-get_elem? xs a (ground arith) in (suc j, omega arith, e)
]

get_elem?-elem : (xs : List ℕ) (j a : ℕ) → get_elem? xs j ≡ some a → elem a xs ≡ true
unfolding elem
get_elem?-elem [] j a h = cc
get_elem?-elem (x ∷ xs) zero a h = ground arith
get_elem?-elem (x ∷ xs) (suc j) a h = ground (arith, get_elem?-elem xs j a h)

get_elem?-lt : (xs : List ℕ) (j a : ℕ) → get_elem? xs j ≡ some a → j < length xs
get_elem?-lt [] j a h = cc
get_elem?-lt (x ∷ xs) zero a h = omega arith
get_elem?-lt (x ∷ xs) (suc j) a h = omega (arith, get_elem?-lt xs j a h)

get_elem?-none : (xs : List ℕ) (j : ℕ) → get_elem? xs j ≡ none → length xs ≤ j
get_elem?-none [] j h = omega arith
get_elem?-none (x ∷ xs) zero h = cc
get_elem?-none (x ∷ xs) (suc j) h = omega (arith, get_elem?-none xs j h)

module _ (realloc_ok : ℕ → Bool) (universe : List ℕ) (w : World) (ctx : ℕ)
    (listed : (c : ℕ) → Linked w ctx c → elem c universe ≡ true) where
  -- The first `i` contexts that were found have been searched.
  record Searched (i : ℕ) (d : Domain) : Type 0 where
    start : elem ctx d.list ≡ true
    sound : (a : ℕ) → elem a d.list ≡ true → Linked w ctx a
    closed :
        (j c x : ℕ)
        → j < i
        → get_elem? d.list j ≡ some c
        → elem x (neighbours w c) ≡ true
        → x == 0 ≡ false
        → elem x d.list ≡ true
    within : i ≤ length d.list

  search_one :
      {i c : ℕ} {d d' : Domain}
      → Searched i d
      → get_elem? d.list i ≡ some c
      → Added realloc_ok universe (neighbours w c) d d'
      → i < length d.list
      → Searched (i + 1) d'
  search_one {i} {c} {d} s here a lt = record {
    start = ground (arith, a.found ctx, s.start);
    sound = λ x h. elim (Bool-cases (elem x d.list)) [
      | inl old ↦ s.sound x old
      | inr new ↦
          link (s.sound c (get_elem?-elem d.list i c here)) (ground (arith, a.found x))
            (ground (arith, a.found x))
    ];
    closed = λ j b x jlt at h nz.
        let before : get_elem? d.list j ≡ some b = sym (a.kept j (omega (arith, jlt, lt))) ∙ at in
        elim (Bool-cases (j == i)) [
          | inr ne ↦ ground (arith, a.found x, s.closed j b x (ground arith) before h nz)
          | inl eq ↦
              let same : j ≡ i = (==_iff j i).0 eq in
              let b-c : some b ≡ some c = rw same at (sym before) ∙ here in
              ground (arith, a.found x)
        ];
    within = omega (arith, a.longer);
  }

  Searched-full :
      {i : ℕ} {d : Domain}
      → Searched i d
      → length d.list ≤ i
      → {a : ℕ} → Linked w ctx a
      → elem a d.list ≡ true
  Searched-full s end self = s.start
  Searched-full {i} {d} s end (link {c} {x} l e nz) =
      let (j, lt, at) = elem-get_elem? d.list c (Searched-full s end l) in
      s.closed j c x (omega arith) at e nz

  Searched-IsDomain : {i : ℕ} {d : Domain} → Searched i d → length d.list ≤ i → IsDomain w ctx d
  Searched-IsDomain s end = record {
    start = s.start;
    sound = s.sound;
    full = λ a l. Searched-full s end l;
  }

  domain_loop_ends :
      (fuel i : ℕ) (d : Domain)
      → Searched i d
      → unfound universe d.list + length d.list < fuel + i
      → (domain_loop realloc_ok w fuel i d ≡ failed)
        ⊎ ((d' : Domain) × (domain_loop realloc_ok w fuel i d ≡ collected d') × IsDomain w ctx d')
  unfolding domain_loop
  domain_loop_ends zero i d s enough = absurd (omega (arith, s.within))
  domain_loop_ends (suc fuel) i d s enough = elim (Option-cases (get_elem? d.list i)) [
    | inl e ↦ inr (d, simp (e, domain_loop), Searched-IsDomain s (get_elem?-none d.list i e))
    | inr (c, e) ↦ elim (Option-cases (domain_add_all realloc_ok (neighbours w c) d)) [
      | inl f ↦ inl (simp (e, f, domain_loop))
      | inr (d', f) ↦
          let a =
            domain_add_all-Added realloc_ok universe (neighbours w c) d d'
              (λ x h nz. listed x (link (s.sound c (get_elem?-elem d.list i c e)) h nz)) f in
          simp (e, f, domain_loop)
            (domain_loop_ends fuel (i + 1) d' (search_one s e a (get_elem?-lt d.list i c e))
              (omega (arith, a.cost)))
    ]
  ]

  abbrev first : Domain
  first = record { list = ctx ∷ []; cap = gc_inline_domain_size; tries = 0 }

  -- `collect_domain` always ends. Unless an allocation fails, it has found exactly the contexts that are
  -- linked with the given one, directly or through others.
  pub collect_domain_ends :
      (ctx == 0) ≡ false
      → (collect_domain realloc_ok w (length universe) ctx ≡ failed)
        ⊎ ((d : Domain) × (collect_domain realloc_ok w (length universe) ctx ≡ collected d)
            × IsDomain w ctx d)
  unfolding collect_domain domain_add elem
  collect_domain_ends nz = rw nz (
      domain_loop_ends (length universe + 1) 0 first
        (record {
          start = ground arith;
          sound = λ a h. rw ((==_iff a ctx).0 (ground arith)) self;
          closed = λ j c x lt. elim lt [ ];
          within = omega arith;
        })
        (omega (
          arith,
          unfound-append_lt universe [] ctx (listed ctx self) refl,
          unmarked-le-length universe (λ a. elem a []),
        )))
