-- ===== src/Run/Aggregate/Covers.antt =====
-- For each run of a named workflow the map of `latestByWorkflowName` has one that it does not follow.
use cloche.Base.{
  String, ◌≡◌, refl, ◌≢◌, inl, inr, sym, true, false, Option, none, some, List, [], ◌∷◌, ◌++◌, ◌==◌,
  All, Any, All-append, Dict, lookup, insert, lookup-insert, arith, eq_iff, Bool-cases,
  Option-cases,
}
use mathlib.Core.Path.{subst}
use cloche.Run.{Time, Run}
use cloche.Run.Aggregate.{after, keep_later, collect_latest, values, latest_by_workflow_name}

module _ (P : Run → Type 0) where
  values-insert :
      (k : String) (r : Run) (m : Dict Run) → P r → All P (values m) → All P (values (insert k r m))
  unfolding insert
  values-insert k r [] p h = (p, tt)
  values-insert k r ((j, v) ∷ m) p h = elim (Bool-cases (j == k)) [
    | inl e ↦ rw e (p, h.1)
    | inr e ↦ rw e (h.0, values-insert k r m p h.1)
  ]

  values-keep_later :
      (o : Option Run) (r : Run) (m : Dict Run)
      → P r
      → All P (values m)
      → All P (values (keep_later o r m))
  unfolding keep_later
  values-keep_later none r m p h = values-insert r.workflow_name r m p h
  values-keep_later (some prev) r m p h = elim (Bool-cases (after r.started_at prev.started_at)) [
    | inl e ↦ rw e (values-insert r.workflow_name r m p h)
    | inr e ↦ rw e h
  ]

  collect_latest-All :
      (m : Dict Run) (u rs : List Run)
      → All P (values m)
      → All P u
      → All P rs
      → All P (values (collect_latest m u rs).0 ++ (collect_latest m u rs).1)
  unfolding collect_latest
  collect_latest-All m u [] h k a = All-append P (values m) u h k
  collect_latest-All m u (r ∷ rs) h k a = elim (Bool-cases (r.workflow_name == "")) [
    | inl e ↦
        rw e (collect_latest-All m (u ++ r ∷ []) rs h (All-append P u (r ∷ []) k (a.0, tt)) a.1)
    | inr e ↦ rw e (
        collect_latest-All (keep_later (lookup r.workflow_name m) r m) u rs
          (values-keep_later (lookup r.workflow_name m) r m a.0 h) k a.1)
  ]

  pub latest_by_workflow_name-All : (rs : List Run) → All P rs → All P (latest_by_workflow_name rs)
  unfolding latest_by_workflow_name
  latest_by_workflow_name-All rs a = collect_latest-All [] [] rs tt tt a

-- The map's keys are the names of its runs, and no key stands twice.
abbrev pub IsKeyed : Dict Run → Type 0
IsKeyed [] = Unit
IsKeyed ((k, r) ∷ m) = (r.workflow_name ≡ k) × (lookup k m ≡ none) × IsKeyed m

insert-IsKeyed : (r : Run) (m : Dict Run) → IsKeyed m → IsKeyed (insert r.workflow_name r m)
unfolding insert
insert-IsKeyed r [] h = (refl, unfold lookup in refl, tt)
insert-IsKeyed r ((j, v) ∷ m) h = elim (Bool-cases (j == r.workflow_name)) [
  | inl e ↦ rw e (refl, ground (arith, eq_iff j r.workflow_name, h.1), h.2)
  | inr e ↦ rw e (
    h.0,
    ground (
      arith,
      eq_iff r.workflow_name j,
      eq_iff j r.workflow_name,
      h.1,
      lookup-insert r.workflow_name j r m,
    ),
    insert-IsKeyed r m h.2,
  )
]

keep_later-IsKeyed :
    (o : Option Run) (r : Run) (m : Dict Run) → IsKeyed m → IsKeyed (keep_later o r m)
unfolding keep_later
keep_later-IsKeyed none r m h = insert-IsKeyed r m h
keep_later-IsKeyed (some prev) r m h = elim (Bool-cases (after r.started_at prev.started_at)) [
  | inl e ↦ rw e (insert-IsKeyed r m h)
  | inr e ↦ rw e h
]

-- A run of the map, of the same workflow, that the given one does not follow.
abbrev pub Covers : Dict Run → Run → Type 0
Covers m r =
    (x : Run) × (lookup r.workflow_name m ≡ some x) × (after r.started_at x.started_at ≡ false)

not_after_self : (t : Time) → after t t ≡ false
not_after_self none = refl
not_after_self (some t) = ground arith

not_after_trans : (t u v : Time) → after t u ≡ false → after v u ≡ true → after t v ≡ false
not_after_trans none u v h k = refl
not_after_trans (some t) none v h k = cc
not_after_trans (some t) (some u) none h k = cc
not_after_trans (some t) (some u) (some v) h k = ground arith

keep_later-Covers_new :
    (r : Run) (m : Dict Run) → Covers (keep_later (lookup r.workflow_name m) r m) r
unfolding keep_later
keep_later-Covers_new r m = elim (Option-cases (lookup r.workflow_name m)) [
  | inl e ↦
      rw (e, keep_later)
        (
          r,
          ground (
            arith,
            lookup-insert r.workflow_name r.workflow_name r m,
            eq_iff r.workflow_name r.workflow_name,
          ),
          not_after_self r.started_at,
        )
  | inr (x, e) ↦ elim (Bool-cases (after r.started_at x.started_at)) [
    | inl a ↦
        rw (e, keep_later, a)
          (
            r,
            ground (
              arith,
              lookup-insert r.workflow_name r.workflow_name r m,
              eq_iff r.workflow_name r.workflow_name,
            ),
            not_after_self r.started_at,
          )
    | inr a ↦ rw (e, keep_later, a) (x, e, a)
  ]
]

-- A later run of one workflow takes the place of the run that covered the others of it.
insert-Covers :
    (r s : Run) (m : Dict Run)
    → Covers m s
    → ((x : Run) → lookup r.workflow_name m ≡ some x → after r.started_at x.started_at ≡ true)
    → Covers (insert r.workflow_name r m) s
insert-Covers r s m (x, found, late) newer =
    elim (Bool-cases (r.workflow_name == s.workflow_name)) [
      | inl e ↦
          let same = (eq_iff r.workflow_name s.workflow_name).0 e in
          (
            r,
            ground (arith, lookup-insert r.workflow_name s.workflow_name r m, e),
            not_after_trans s.started_at x.started_at r.started_at late (newer x (rw same found)),
          )
      | inr e ↦ (x, ground (arith, lookup-insert r.workflow_name s.workflow_name r m, e), late)
    ]

keep_later-Covers :
    (o : Option Run) (r s : Run) (m : Dict Run)
    → lookup r.workflow_name m ≡ o
    → Covers m s
    → Covers (keep_later o r m) s
unfolding keep_later
keep_later-Covers none r s m e h = insert-Covers r s m h (λ x found. cc)
keep_later-Covers (some prev) r s m e h = elim (Bool-cases (after r.started_at prev.started_at)) [
  | inl a ↦ rw a (insert-Covers r s m h (λ x found. ground (arith, a, e, found)))
  | inr a ↦ rw a h
]

abbrev pub IsNamed : Run → Type 0
IsNamed r = r.workflow_name ≢ ""

collect_latest-keeps :
    (m : Dict Run) (u rs : List Run) (s : Run) → Covers m s → Covers (collect_latest m u rs).0 s
unfolding collect_latest
collect_latest-keeps m u [] s h = h
collect_latest-keeps m u (r ∷ rs) s h = elim (Bool-cases (r.workflow_name == "")) [
  | inl e ↦ rw e (collect_latest-keeps m (u ++ r ∷ []) rs s h)
  | inr e ↦ rw e (
      collect_latest-keeps (keep_later (lookup r.workflow_name m) r m) u rs s
        (keep_later-Covers (lookup r.workflow_name m) r s m refl h))
]

collect_unnamed :
    (m : Dict Run) (u rs : List Run) (r : Run)
    → (r.workflow_name == "") ≡ true
    → collect_latest m u (r ∷ rs) ≡ collect_latest m (u ++ r ∷ []) rs
unfolding collect_latest
collect_unnamed m u rs r e = rw e

collect_named :
    (m : Dict Run) (u rs : List Run) (r : Run)
    → (r.workflow_name == "") ≡ false
    → collect_latest m u (r ∷ rs) ≡ collect_latest (keep_later (lookup r.workflow_name m) r m) u rs
unfolding collect_latest
collect_named m u rs r e = rw e

pub collect_latest-Covers :
    (m : Dict Run) (u rs : List Run) → All (λ r. IsNamed r → Covers (collect_latest m u rs).0 r) rs
collect_latest-Covers m u [] = tt
collect_latest-Covers m u (r ∷ rs) = elim (Bool-cases (r.workflow_name == "")) [
  | inl e ↦
      subst (λ d. All (λ x. IsNamed x → Covers d.0 x) (r ∷ rs)) (sym (collect_unnamed m u rs r e))
        (
          λ named. absurd (named ((eq_iff r.workflow_name "").0 e)),
          collect_latest-Covers m (u ++ r ∷ []) rs,
        )
  | inr e ↦
      let m' = keep_later (lookup r.workflow_name m) r m in
      subst (λ d. All (λ x. IsNamed x → Covers d.0 x) (r ∷ rs)) (sym (collect_named m u rs r e))
        (
          λ named. collect_latest-keeps m' u rs r (keep_later-Covers_new r m),
          collect_latest-Covers m' u rs,
        )
]

pub collect_latest-IsKeyed :
    (m : Dict Run) (u rs : List Run)
    → IsKeyed m
    → All (λ r. r.workflow_name ≡ "") u
    → IsKeyed (collect_latest m u rs).0 × All (λ r. r.workflow_name ≡ "") (collect_latest m u rs).1
unfolding collect_latest
collect_latest-IsKeyed m u [] h k = (h, k)
collect_latest-IsKeyed m u (r ∷ rs) h k = elim (Bool-cases (r.workflow_name == "")) [
  | inl e ↦ rw e (
      collect_latest-IsKeyed m (u ++ r ∷ []) rs h
        (All-append (λ x. x.workflow_name ≡ "") u (r ∷ []) k ((eq_iff r.workflow_name "").0 e, tt)))
  | inr e ↦ rw e (
      collect_latest-IsKeyed (keep_later (lookup r.workflow_name m) r m) u rs
        (keep_later-IsKeyed (lookup r.workflow_name m) r m h) k)
]

pub found_in_values :
    (k : String) (m : Dict Run) {x : Run}
    → IsKeyed m
    → lookup k m ≡ some x
    → Any (λ r. r ≡ x) (values m) × (x.workflow_name ≡ k)
unfolding lookup
found_in_values k [] h e = cc
found_in_values k ((j, r) ∷ m) {x} h e = elim (Bool-cases (j == k)) [
  | inl a ↦
      let same : r ≡ x = ground (arith, a, e) in
      (inl same, ground (arith, same, h.0, (eq_iff j k).0 a))
  | inr a ↦ let (found, name) = found_in_values k m {x = x} h.2 (rw a at e) in (inr found, name)
]
