-- ===== src/Workflow/Validate/Sets.antt =====
-- What the sets of `Validate` hold after its loops over the wires and the collects.
use cloche.Base.{String, ◌≡◌, refl, Bool, not, ◌&&◌, ◌||◌, List, [], ◌∷◌, ◌==◌, any, arith}
use cloche.Workflow.{Wire, WireCondition, Collect, is_terminal, leaves}
use cloche.Workflow.Validate.{Marks, is_wired, is_reachable, mark_wired, mark_target, mark_wires}

abbrev pub names : String → String → WireCondition → Bool
names step result c = c.step == step && c.result == result

unfoldable pub mark_conditions : List WireCondition → Marks → Marks
mark_conditions [] m = m
mark_conditions (c ∷ cs) m = mark_conditions cs (mark_wired c.step c.result m)

unfoldable pub mark_collects : List Collect → Marks → Marks
mark_collects [] m = m
mark_collects (c ∷ cs) m = mark_collects cs (mark_conditions c.conditions (mark_target c.target m))

-- A target that is a step.
abbrev pub aims : String → String → Bool
aims step target = not (is_terminal target) && target == step

-- One wire, and one condition, marks its pair; a target is marked if it is a step.
is_wired-mark :
    (t a b : String) (m : Marks) (s r : String)
    → is_wired (mark_target t (mark_wired a b m)) s r ≡ ((a == s && b == r) || is_wired m s r)
unfolding is_wired
is_wired-mark t a b m s r = ground arith

is_reachable-mark :
    (t a b : String) (m : Marks) (s : String)
    → is_reachable (mark_target t (mark_wired a b m)) s ≡ (aims s t || is_reachable m s)
unfolding is_reachable
is_reachable-mark t a b m s = ground arith

is_wired-mark_target :
    (t : String) (m : Marks) (s r : String) → is_wired (mark_target t m) s r ≡ is_wired m s r
unfolding is_wired
is_wired-mark_target t m s r = ground arith

is_reachable-mark_target :
    (t : String) (m : Marks) (s : String)
    → is_reachable (mark_target t m) s ≡ (aims s t || is_reachable m s)
unfolding is_reachable
is_reachable-mark_target t m s = ground arith

pub is_wired-mark_wires :
    (ws : List Wire) (m : Marks) (s r : String)
    → is_wired (mark_wires ws m) s r ≡ (any (leaves s r) ws || is_wired m s r)
unfolding mark_wires any leaves
is_wired-mark_wires [] m s r = refl
is_wired-mark_wires (w ∷ ws) m s r = ground (
  arith,
  is_wired-mark_wires ws (mark_target w.target (mark_wired w.source w.result m)) s r,
  is_wired-mark w.target w.source w.result m s r,
)

pub is_reachable-mark_wires :
    (ws : List Wire) (m : Marks) (s : String)
    → is_reachable (mark_wires ws m) s ≡ (any (λ w. aims s w.target) ws || is_reachable m s)
unfolding mark_wires any
is_reachable-mark_wires [] m s = refl
is_reachable-mark_wires (w ∷ ws) m s = ground (
  arith,
  is_reachable-mark_wires ws (mark_target w.target (mark_wired w.source w.result m)) s,
  is_reachable-mark w.target w.source w.result m s,
)

is_wired-mark_conditions :
    (cs : List WireCondition) (m : Marks) (s r : String)
    → is_wired (mark_conditions cs m) s r ≡ (any (names s r) cs || is_wired m s r)
unfolding mark_conditions any is_wired
is_wired-mark_conditions [] m s r = refl
is_wired-mark_conditions (c ∷ cs) m s r =
    ground (arith, is_wired-mark_conditions cs (mark_wired c.step c.result m) s r)

is_reachable-mark_conditions :
    (cs : List WireCondition) (m : Marks) (s : String)
    → is_reachable (mark_conditions cs m) s ≡ is_reachable m s
unfolding mark_conditions is_reachable
is_reachable-mark_conditions [] m s = refl
is_reachable-mark_conditions (c ∷ cs) m s =
    is_reachable-mark_conditions cs (mark_wired c.step c.result m) s

pub is_wired-mark_collects :
    (cs : List Collect) (m : Marks) (s r : String)
    → is_wired (mark_collects cs m) s r
      ≡ (any (λ c. any (names s r) c.conditions) cs || is_wired m s r)
unfolding mark_collects any
is_wired-mark_collects [] m s r = refl
is_wired-mark_collects (c ∷ cs) m s r = ground (
  arith,
  is_wired-mark_collects cs (mark_conditions c.conditions (mark_target c.target m)) s r,
  is_wired-mark_conditions c.conditions (mark_target c.target m) s r,
  is_wired-mark_target c.target m s r,
)

pub is_reachable-mark_collects :
    (cs : List Collect) (m : Marks) (s : String)
    → is_reachable (mark_collects cs m) s ≡ (any (λ c. aims s c.target) cs || is_reachable m s)
unfolding mark_collects any
is_reachable-mark_collects [] m s = refl
is_reachable-mark_collects (c ∷ cs) m s = ground (
  arith,
  is_reachable-mark_collects cs (mark_conditions c.conditions (mark_target c.target m)) s,
  is_reachable-mark_conditions c.conditions (mark_target c.target m) s,
  is_reachable-mark_target c.target m s,
)
