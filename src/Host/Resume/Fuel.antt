-- ===== src/Host/Resume/Fuel.antt =====
-- buildPreloadedResults: the walk ends, since each nested call visits another step with a result.
use Prim.Native.Nat.{◌≤◌, ◌<◌}
use cloche.Base.{
  ℕ, zero, suc, ◌+◌, String, ◌≡◌, refl, inl, inr, ◌∙◌, true, false, ◌||◌, Option, none, some, List,
  [], ◌∷◌, ◌==◌, if◌then◌else◌, Dict, lookup, length, arith, eq_iff, Bool-cases, Option-cases,
}
use cloche.Workflow.{Workflow, is_terminal}
use cloche.Host.Resume.{
  Walk, is_visited, next_targets, walk_each, visit, preload, walk_found, walk, empty_walk,
  walk_fuel, walk_from_entry,
}

-- The entries of the results whose step is not visited.
abbrev pub unvisited : Dict String → Walk → ℕ
unvisited [] s = 0
unvisited ((name, _) ∷ results) s = (if is_visited name s then 0 else 1) + unvisited results s

-- A walk only adds to the visited steps.
abbrev pub Grows : Walk → Walk → Type 0
Grows s t = (name : String) → is_visited name s ≡ true → is_visited name t ≡ true

pub Grows-refl : (s : Walk) → Grows s s
Grows-refl s name h = h

pub Grows-trans : (s t u : Walk) → Grows s t → Grows t u → Grows s u
Grows-trans s t u g h name v = h name (g name v)

pub is_visited-visit :
    (asked name : String) (s : Walk)
    → is_visited asked (visit name s) ≡ ((name == asked) || is_visited asked s)
unfolding is_visited visit
is_visited-visit asked name s = refl

pub Grows-visit : (name result : String) (s : Walk) → Grows s (preload name result (visit name s))
unfolding is_visited visit preload
Grows-visit name result s asked h = ground arith

Grows-visit_alone : (name : String) (s : Walk) → Grows s (visit name s)
unfolding is_visited visit
Grows-visit_alone name s asked h = ground arith

unvisited-le-length : (results : Dict String) (s : Walk) → unvisited results s ≤ length results
unvisited-le-length [] s = omega arith
unvisited-le-length ((name, r) ∷ results) s = ground (arith, unvisited-le-length results s)

unvisited-Grows :
    (results : Dict String) (s t : Walk) → Grows s t → unvisited results t ≤ unvisited results s
unvisited-Grows [] s t g = omega arith
unvisited-Grows ((name, r) ∷ results) s t g = ground (arith, g name, unvisited-Grows results s t g)

unvisited-visit :
    (results : Dict String) (name result r : String) (s : Walk)
    → is_visited name s ≡ false
    → lookup name results ≡ some r
    → unvisited results (preload name result (visit name s)) < unvisited results s
unfolding lookup is_visited visit preload
unvisited-visit [] name result r s new found = cc
unvisited-visit ((k, v) ∷ results) name result r s new found = elim (Bool-cases (k == name)) [
  | inl same ↦ ground (
    arith,
    eq_iff k name,
    eq_iff name k,
    unvisited-Grows results s (preload name result (visit name s)) (Grows-visit name result s),
  )
  | inr different ↦
      ground (arith, eq_iff k name, eq_iff name k, unvisited-visit results name result r s new)
]

-- A walk from any step comes to an end, and forgets nothing.
abbrev Ends : (String → Walk → Option Walk) → String → Walk → Type 0
Ends go name s = (t : Walk) × (go name s ≡ some t) × Grows s t

-- One turn of the loop over the next steps.
pub walk_each_skip :
    (go : String → Walk → Option Walk) (t : String) (ts : List String) (s : Walk)
    → is_terminal t ≡ true
    → walk_each go (t ∷ ts) s ≡ walk_each go ts s
unfolding walk_each
walk_each_skip go t ts s h = rw (h, walk_each)

pub walk_each_go :
    (go : String → Walk → Option Walk) (t : String) (ts : List String) (s s' : Walk)
    → is_terminal t ≡ false
    → go t s ≡ some s'
    → walk_each go (t ∷ ts) s ≡ walk_each go ts s'
unfolding walk_each
walk_each_go go t ts s s' h e = rw (h, e, walk_each)

walk_each-Ends :
    (results : Dict String) (fuel : ℕ) (go : String → Walk → Option Walk)
    → ((name : String) (s : Walk) → unvisited results s < fuel → Ends go name s)
    → (ts : List String) (s : Walk) → unvisited results s < fuel
    → (t : Walk) × (walk_each go ts s ≡ some t) × Grows s t
walk_each-Ends results fuel go ends [] s h = (s, unfold walk_each in refl, Grows-refl s)
walk_each-Ends results fuel go ends (t ∷ ts) s h = elim (Bool-cases (is_terminal t)) [
  | inl terminal ↦
      rw (walk_each_skip go t ts s terminal) (walk_each-Ends results fuel go ends ts s h)
  | inr other ↦
      let (s', e, g) = ends t s h in
      let (u, e', g') =
        walk_each-Ends results fuel go ends ts s'
          (omega (arith, unvisited-Grows results s s' g, h)) in
      (u, walk_each_go go t ts s s' other e ∙ e', Grows-trans s s' u g g')
]

-- The three ways of a call of `walk`: the step is not entered, has no result, or has one.
module _ (w : Workflow) (results : Dict String) (resume_from : String) (fuel : ℕ) (name : String)
    (s : Walk) where
  pub walk_stops :
      (is_visited name s || name == resume_from) ≡ true
      → walk w results resume_from (suc fuel) name s ≡ some s
  unfolding walk
  walk_stops h = rw h

  pub walk_misses :
      (is_visited name s || name == resume_from) ≡ false
      → lookup name results ≡ none
      → walk w results resume_from (suc fuel) name s ≡ some (visit name s)
  unfolding walk walk_found
  walk_misses h e = rw (h, e)

  pub walk_enters :
      (is_visited name s || name == resume_from) ≡ false
      → (r : String) → lookup name results ≡ some r
      → walk w results resume_from (suc fuel) name s
        ≡ walk_each
            (walk w results resume_from fuel)
            (next_targets w name r)
            (preload name r (visit name s))
  unfolding walk walk_found
  walk_enters h r e = rw (h, e)

pub walk-Ends :
    (w : Workflow) (results : Dict String) (resume_from : String) (fuel : ℕ) (name : String)
    (s : Walk)
    → unvisited results s < fuel
    → Ends (walk w results resume_from fuel) name s
walk-Ends w results resume_from zero name s h = absurd (omega arith)
walk-Ends w results resume_from (suc fuel) name s h =
    elim (Bool-cases (is_visited name s || name == resume_from)) [
      | inl stops ↦ (s, walk_stops w results resume_from fuel name s stops, Grows-refl s)
      | inr goes ↦ elim (Option-cases (lookup name results)) [
        | inl missing ↦ (
          visit name s,
          walk_misses w results resume_from fuel name s goes missing,
          Grows-visit_alone name s,
        )
        | inr (r, found) ↦
            let smaller = unvisited-visit results name r r s (ground arith) found in
            let (t, e, g) =
              walk_each-Ends results fuel (walk w results resume_from fuel)
                (walk-Ends w results resume_from fuel) (next_targets w name r)
                (preload name r (visit name s)) (omega (arith, smaller, h)) in
            (
              t,
              walk_enters w results resume_from fuel name s goes r found ∙ e,
              Grows-trans s (preload name r (visit name s)) t (Grows-visit name r s) g,
            )
      ]
    ]

-- The walk from the entry step ends for every run, workflow and step to resume from.
pub walk_from_entry_ends :
    (w : Workflow) (results : Dict String) (resume_from : String)
    → (t : Walk) × (walk_from_entry w results resume_from ≡ some t)
unfolding walk_from_entry
walk_from_entry_ends w results resume_from =
    let (t, e, _) =
      walk-Ends w results resume_from (walk_fuel results) w.entry_step empty_walk
        (omega (arith, unvisited-le-length results empty_walk)) in
    (t, e)
