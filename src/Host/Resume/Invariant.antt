-- ===== src/Host/Resume/Invariant.antt =====
-- buildPreloadedResults: what holds of the variables that `walk` closes over.
use cloche.Base.{
  ℕ, zero, suc, String, ◌≡◌, refl, sym, ◌∙◌, inl, inr, true, false, ◌||◌, Option, none, some, List,
  [], ◌∷◌, ◌==◌, if◌then◌else◌, Dict, lookup, lookup-insert, Any, arith, eq_iff, Bool-cases,
  Option-cases,
}
use mathlib.Core.Path.{subst}
use cloche.Workflow.{Workflow, is_terminal}
use cloche.Host.Resume.{Walk, is_visited, next_targets, walk_each, visit, preload, walk}
use cloche.Host.Resume.Fuel.{
  Grows, Grows-refl, Grows-trans, Grows-visit, is_visited-visit, walk_each_skip, walk_each_go,
  walk_stops, walk_misses, walk_enters,
}
use cloche.Host.Resume.Reached.{next_targets-Leads, Reached, follow}

walk_each_stuck :
    (go : String → Walk → Option Walk) (x : String) (ts : List String) (s t : Walk)
    → is_terminal x ≡ false
    → go x s ≡ none
    → walk_each go (x ∷ ts) s ≡ some t
    → ⊥
unfolding walk_each
walk_each_stuck go x ts s t other stuck e = cc (rw (other, stuck, walk_each) at e)

entered : (name r : String) (s : Walk) → is_visited name (preload name r (visit name s)) ≡ true
unfolding is_visited preload visit
entered name r s = ground (arith, eq_iff name name)

module _ (w : Workflow) (results : Dict String) (resume_from : String) where
  abbrev pub IsReached : String → Type 0
  IsReached = Reached w (λ name. lookup name results) resume_from

  abbrev pub IsDone : String → Walk → Type 0
  IsDone name s = (is_visited name s || name == resume_from) ≡ true

  -- What holds of the variables of the walk at any time.
  pub record Inv (s : Walk) : Type 0 where
    pub reached : (name : String) → is_visited name s ≡ true → IsReached name
    pub loaded :
        (name : String)
        → lookup name s.preloaded ≡ (if is_visited name s then lookup name results else none)

  -- The steps that a walk added have all their successors visited.
  abbrev pub IsClosed : Walk → Walk → Type 0
  IsClosed s t =
      (step result name : String)
      → is_visited step s ≡ false
      → is_visited step t ≡ true
      → lookup step results ≡ some result
      → Any (λ x. x ≡ name) (next_targets w step result)
      → is_terminal name ≡ false
      → IsDone name t

  pub record Walked (s t : Walk) : Type 0 where
    pub inv : Inv t
    pub grows : Grows s t
    pub closed : IsClosed s t

  IsDone-Grows : (name : String) (s t : Walk) → Grows s t → IsDone name s → IsDone name t
  IsDone-Grows name s t g h = ground (arith, g name)

  Walked-refl : (s : Walk) → Inv s → Walked s s
  Walked-refl s h = record {
    inv = h;
    grows = Grows-refl s;
    closed = λ step result name new old. cc;
  }

  Walked-trans : (s t u : Walk) → Walked s t → Walked t u → Walked s u
  Walked-trans s t u first then_ = record {
    inv = then_.inv;
    grows = Grows-trans s t u first.grows then_.grows;
    closed = λ step result name new old e h k. elim (Bool-cases (is_visited step t)) [
      | inl seen ↦ IsDone-Grows name t u then_.grows (first.closed step result name new seen e h k)
      | inr unseen ↦ then_.closed step result name unseen old e h k
    ];
  }

  Inv-visit :
      (name : String) (s : Walk)
      → Inv s
      → IsReached name
      → lookup name results ≡ none
      → is_visited name s ≡ false
      → Inv (visit name s)
  unfolding visit is_visited
  Inv-visit name s h p missing new = record {
    reached = λ asked v. elim (Bool-cases (name == asked)) [
      | inl same ↦ subst IsReached ((eq_iff name asked).0 same) p
      | inr other ↦ h.reached asked (ground arith)
    ];
    loaded = λ asked. ground (arith, h.loaded asked, eq_iff name asked);
  }

  Inv-preload :
      (name r : String) (s : Walk)
      → Inv s
      → IsReached name
      → lookup name results ≡ some r
      → Inv (preload name r (visit name s))
  unfolding visit is_visited preload
  Inv-preload name r s h p found = record {
    reached = λ asked v. elim (Bool-cases (name == asked)) [
      | inl same ↦ subst IsReached ((eq_iff name asked).0 same) p
      | inr other ↦ h.reached asked (ground arith)
    ];
    loaded = λ asked.
        ground (arith, h.loaded asked, eq_iff name asked, lookup-insert name asked r s.preloaded);
  }

  IsClosed-visit :
      (name : String) (s : Walk) → lookup name results ≡ none → IsClosed s (visit name s)
  unfolding visit is_visited
  IsClosed-visit name s missing step result b new old e h k = ground (arith, eq_iff name step)

  -- A step is entered: its own successors are done at the end, and so are those of the others.
  IsClosed-enter :
      (name r : String) (s t : Walk)
      → lookup name results ≡ some r
      → ((b : String)
          → Any (λ x. x ≡ b) (next_targets w name r)
          → is_terminal b ≡ false
          → IsDone b t)
      → IsClosed (preload name r (visit name s)) t
      → IsClosed s t
  unfolding visit is_visited preload
  IsClosed-enter name r s t found done closed step result b new old e h k =
      elim (Bool-cases (name == step)) [
        | inl same ↦
            let same' = (eq_iff name step).0 same in
            done b
              (subst (λ x. Any (λ y. y ≡ b) (next_targets w x r)) (sym same')
                (subst (λ x. Any (λ y. y ≡ b) (next_targets w step x)) (ground arith) h))
              k
        | inr other ↦ closed step result b (ground arith) old e h k
      ]

  -- A walk from a step to which the results lead.
  abbrev pub MayEnter : String → Type 0
  MayEnter name = (name == resume_from) ≡ false → IsReached name

  abbrev pub Correct : (String → Walk → Option Walk) → Type 0
  Correct go =
      (name : String) (s t : Walk)
      → go name s ≡ some t
      → Inv s
      → MayEnter name
      → Walked s t × IsDone name t

  walk_each_lem :
      (go : String → Walk → Option Walk) (ts : List String) (s t : Walk)
      → Correct go
      → walk_each go ts s ≡ some t
      → Inv s
      → ((b : String) → Any (λ x. x ≡ b) ts → is_terminal b ≡ false → MayEnter b)
      → Walked s t × ((b : String) → Any (λ x. x ≡ b) ts → is_terminal b ≡ false → IsDone b t)
  walk_each_lem go [] s t ok_ e h may =
      let same : s ≡ t = unfold walk_each in cc in
      (subst (Walked s) same (Walked-refl s h), λ b k. absurd k)
  walk_each_lem go (x ∷ ts) s t ok_ e h may = elim (Bool-cases (is_terminal x)) [
    | inl terminal ↦
        let (walked, done) =
          walk_each_lem go ts s t ok_ (sym (walk_each_skip go x ts s terminal) ∙ e) h
            (λ b k. may b (inr k)) in
        (walked, λ b k other. elim k [ inl same ↦ cc | inr k' ↦ done b k' other ])
    | inr other ↦ elim (Option-cases (go x s)) [
      | inl stuck ↦ absurd (walk_each_stuck go x ts s t other stuck e)
      | inr (s', went) ↦
          let (walked, done_x) = ok_ x s s' went h (may x (inl refl) other) in
          let (walked', done) =
            walk_each_lem go ts s' t ok_ (sym (walk_each_go go x ts s s' other went) ∙ e) walked.inv
              (λ b k. may b (inr k)) in
          (
            Walked-trans s s' t walked walked',
            λ b k other'. elim k [
              | inl same ↦ subst (λ y. IsDone y t) same (IsDone-Grows x s' t walked'.grows done_x)
              | inr k' ↦ done b k' other'
            ],
          )
    ]
  ]

  walk_misses_lem :
      (name : String) (s : Walk)
      → Inv s
      → IsReached name
      → lookup name results ≡ none
      → is_visited name s ≡ false
      → Walked s (visit name s) × IsDone name (visit name s)
  walk_misses_lem name s h p missing new = (
    record {
      inv = Inv-visit name s h p missing new;
      grows = λ asked v. rw (is_visited-visit asked name s) (ground arith);
      closed = IsClosed-visit name s missing;
    },
    rw (is_visited-visit name name s) (ground (arith, eq_iff name name)),
  )

  walk_enters_lem :
      (name r : String) (s t : Walk)
      → Inv s
      → IsReached name
      → lookup name results ≡ some r
      → Walked (preload name r (visit name s)) t
        × ((b : String)
            → Any (λ x. x ≡ b) (next_targets w name r)
            → is_terminal b ≡ false
            → IsDone b t)
      → Walked s t × IsDone name t
  walk_enters_lem name r s t h p found (walked, done) = (
    record {
      inv = walked.inv;
      grows = Grows-trans s (preload name r (visit name s)) t (Grows-visit name r s) walked.grows;
      closed = IsClosed-enter name r s t found done walked.closed;
    },
    ground (arith, walked.grows name (entered name r s)),
  )

  may_follow :
      (name r : String)
      → IsReached name
      → lookup name results ≡ some r
      → (b : String) → Any (λ x. x ≡ b) (next_targets w name r)
      → is_terminal b ≡ false
      → MayEnter b
  may_follow name r p found b k other differs =
      follow name r b p found ((next_targets-Leads w name r b).0 k) other
        (λ same. cc ((eq_iff b resume_from).1 same))

  pub walk_lem : (fuel : ℕ) → Correct (walk w results resume_from fuel)
  walk_lem zero name s t e h may = absurd (unfold walk in cc)
  walk_lem (suc fuel) name s t e h may =
      elim (Bool-cases (is_visited name s || name == resume_from)) [
        | inl stops ↦
            let same : some s ≡ some t =
              sym (walk_stops w results resume_from fuel name s stops) ∙ e in
            subst (λ u. Walked s u × IsDone name u) (cc) (Walked-refl s h, stops)
        | inr goes ↦
            let p = may (ground arith) in
            elim (Option-cases (lookup name results)) [
              | inl missing ↦
                  let same : some (visit name s) ≡ some t =
                    sym (walk_misses w results resume_from fuel name s goes missing) ∙ e in
                  subst (λ u. Walked s u × IsDone name u) (cc)
                    (walk_misses_lem name s h p missing (ground arith))
              | inr (r, found) ↦ walk_enters_lem name r s t h p found (
                  walk_each_lem (walk w results resume_from fuel) (next_targets w name r)
                    (preload name r (visit name s)) t (walk_lem fuel)
                    (sym (walk_enters w results resume_from fuel name s goes r found) ∙ e)
                    (Inv-preload name r s h p found) (may_follow name r p found))
            ]
      ]
