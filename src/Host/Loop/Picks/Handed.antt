-- ===== src/Host/Loop/Picks/Handed.antt =====
-- What the picks have handed out, and that the map of the loop tells of it at every later time.
use cloche.Base.{
  ℕ, ◌-◌, ◌≤◌, ◌∙◌, any, ltb, if◌then◌else◌, lookup-insert, String, Bool, false, not, ◌&&◌, ◌||◌,
  ◌≡◌, refl, ap, inl, inr, Option, none, some, List, [], ◌∷◌, ◌==◌, leb, Dict, lookup, insert, has,
  All, arith, eq_iff, Bool-cases,
}
use cloche.Host.Loop.{
  Task, Loop, is_open, is_assigned, unexpired, pick, assign, pick_task_from_phase,
}
use cloche.Host.Loop.Picks.{Round, rounds}

-- Every task ID is written down at most once.
abbrev pub IsMap : Dict ℕ → Type 0
IsMap [] = Unit
IsMap ((k, v) ∷ m) = (has k m ≡ false) × IsMap m

has-insert : (k j : String) (v : ℕ) (m : Dict ℕ) → has j (insert k v m) ≡ (k == j) || has j m
unfolding has insert
has-insert k j v [] = ground arith
has-insert k j v ((i, w) ∷ m) =
    ground (arith, eq_iff i k, eq_iff i j, eq_iff k j, has-insert k j v m)

insert-IsMap : (k : String) (v : ℕ) (m : Dict ℕ) → IsMap m → IsMap (insert k v m)
unfolding has insert
insert-IsMap k v [] h = (refl, tt)
insert-IsMap k v ((j, w) ∷ m) (h, hs) = elim (Bool-cases (j == k)) [
  | inl e ↦ let same : j ≡ k = (eq_iff j k).0 e in rw (e, insert) (rw same at h, hs)
  | inr e ↦
      rw (e, insert)
        (ground (arith, h, e, has-insert k j v m, eq_iff k j, eq_iff j k), insert-IsMap k v m hs)
]

has-unexpired :
    (now timeout : ℕ) (k : String) (m : Dict ℕ)
    → has k m ≡ false
    → has k (unexpired now timeout m) ≡ false
unfolding has unexpired
has-unexpired now timeout k [] h = refl
has-unexpired now timeout k ((j, ts) ∷ m) h = ground (arith, has-unexpired now timeout k m)

unexpired-IsMap : (now timeout : ℕ) (m : Dict ℕ) → IsMap m → IsMap (unexpired now timeout m)
unfolding unexpired
unexpired-IsMap now timeout [] h = tt
unexpired-IsMap now timeout ((j, ts) ∷ m) (h, hs) = elim (Bool-cases (leb timeout (now - ts))) [
  | inl e ↦ rw (e, unexpired) (unexpired-IsMap now timeout m hs)
  | inr e ↦ rw (e, unexpired) (has-unexpired now timeout j m h, unexpired-IsMap now timeout m hs)
]

lookup-has : (k : String) (m : Dict ℕ) → has k m ≡ false → lookup k m ≡ none
unfolding has lookup
lookup-has k [] h = refl
lookup-has k ((j, v) ∷ m) h = ground (arith, lookup-has k m)

-- To drop the entries that have expired changes nothing for a test at that time or a later one.
pub is_assigned-unexpired :
    (now later timeout : ℕ) (m : Dict ℕ) (id : String)
    → now ≤ later
    → IsMap m
    → is_assigned later timeout (unexpired now timeout m) id ≡ is_assigned later timeout m id
unfolding is_assigned unexpired lookup
is_assigned-unexpired now later timeout [] id le h = refl
is_assigned-unexpired now later timeout ((j, ts) ∷ m) id le (h, hs) = elim (Bool-cases (j == id)) [
  | inl e ↦
      let same : j ≡ id = (eq_iff j id).0 e in
      let gone =
        lookup-has id (unexpired now timeout m) (has-unexpired now timeout id m (rw same at h)) in
      ground (arith, e, gone)
  | inr e ↦ ground (arith, e, is_assigned-unexpired now later timeout m id le hs)
]

assign-IsMap : (now : ℕ) (picked : Option Task) (m : Dict ℕ) → IsMap m → IsMap (assign now picked m)
unfolding assign
assign-IsMap now none m h = h
assign-IsMap now (some t) m h = elim (Bool-cases (t.id == "")) [
  | inl e ↦ rw (e, assign) h
  | inr e ↦ rw (e, assign) (insert-IsMap t.id now m h)
]

-- What was handed out, each with its time, newest first.
abbrev pub Handed : Type 0
Handed = List (String × ℕ)

abbrev pub hand_out : ℕ → Option Task → Handed → Handed
hand_out now none hs = hs
hand_out now (some t) hs = (t.id, now) ∷ hs

unfoldable pub handed : List Round → Loop → Handed → Handed
handed [] l hs = hs
handed (r ∷ rs) l hs =
    let (picked, l') = pick_task_from_phase r.tasks r.now l in
    handed rs l' (hand_out r.now picked hs)

-- A task of this ID was handed out less than the timeout ago.
abbrev pub is_recent : ℕ → ℕ → Handed → String → Bool
is_recent now timeout hs id = any (λ (other, ts). other == id && ltb (now - ts) timeout) hs

-- A task that may be handed out: the sentinel, or one that is open and not handed out of late.
abbrev pub is_free : ℕ → ℕ → Handed → Task → Bool
is_free now timeout hs t = t.id == "" || (is_open t && not (is_recent now timeout hs t.id))

-- The clock does not go back between the picks, nor behind the time `end`.
abbrev pub InOrder : List Round → ℕ → Type 0
InOrder [] end = Unit
InOrder (r ∷ rs) end = All (λ q. r.now ≤ q.now) rs × (r.now ≤ end) × InOrder rs end

is_recent_old :
    (last now timeout : ℕ) (hs : Handed) (id : String)
    → All (λ h. h.1 ≤ last) hs
    → timeout ≤ now - last
    → is_recent now timeout hs id ≡ false
unfolding any
is_recent_old last now timeout [] id early old = refl
is_recent_old last now timeout ((j, ts) ∷ hs) id early old =
    ground (arith, is_recent_old last now timeout hs id)

AllEarly-mono :
    (last now : ℕ) (hs : Handed) → last ≤ now → All (λ h. h.1 ≤ last) hs → All (λ h. h.1 ≤ now) hs
AllEarly-mono last now [] le early = tt
AllEarly-mono last now (h ∷ hs) le early =
    (omega (arith, le, early.0), AllEarly-mono last now hs le early.1)

AllEarly-hand_out :
    (now : ℕ) (picked : Option Task) (hs : Handed)
    → All (λ h. h.1 ≤ now) hs
    → All (λ h. h.1 ≤ now) (hand_out now picked hs)
AllEarly-hand_out now none hs early = early
AllEarly-hand_out now (some t) hs early = (omega arith, early)

-- The map of the loop says of every later time what was handed out of late.
pub record Agree (last timeout : ℕ) (l : Loop) (hs : Handed) : Type 0 where
  pub is_map : IsMap l.dedup
  pub timed : l.config.dedup_timeout ≡ timeout
  pub early : All (λ h. h.1 ≤ last) hs
  pub same :
      (now : ℕ) (id : String)
      → last ≤ now
      → (id == "") ≡ false
      → is_assigned now timeout l.dedup id ≡ is_recent now timeout hs id

Agree-later :
    (last end timeout : ℕ) (l : Loop) (hs : Handed)
    → last ≤ end
    → Agree last timeout l hs
    → Agree end timeout l hs
Agree-later last end timeout l hs le a = record {
  is_map = a.is_map;
  timed = a.timed;
  early = AllEarly-mono last end hs le a.early;
  same = λ now id le' named. a.same now id (omega (arith, le, le')) named;
}

is_assigned-assign :
    (now later timeout : ℕ) (t : Task) (m : Dict ℕ) (id : String)
    → (id == "") ≡ false
    → is_assigned later timeout (assign now (some t) m) id
      ≡ (if t.id == id then ltb (later - now) timeout else is_assigned later timeout m id)
unfolding is_assigned assign
is_assigned-assign now later timeout t m id named =
    ground (arith, eq_iff t.id "", eq_iff t.id id, eq_iff id "", lookup-insert t.id id now m)

is_assigned-hand_out :
    (now later timeout : ℕ) (picked : Option Task) (m : Dict ℕ) (hs : Handed) (id : String)
    → (id == "") ≡ false
    → now ≤ later
    → All (λ h. h.1 ≤ now) hs
    → is_assigned later timeout m id ≡ is_recent later timeout hs id
    → is_assigned later timeout (assign now picked m) id
      ≡ is_recent later timeout (hand_out now picked hs) id
unfolding any
is_assigned-hand_out now later timeout none m hs id named le early same = unfold assign in same
is_assigned-hand_out now later timeout (some t) m hs id named le early same =
    is_assigned-assign now later timeout t m id named
    ∙ ground (arith, same, is_recent_old now later timeout hs id early)

pick-Agree :
    (tasks : Option (List Task)) (last now timeout : ℕ) (l : Loop) (hs : Handed)
    → last ≤ now
    → Agree last timeout l hs
    → let (picked, l') = pick_task_from_phase tasks now l in
      Agree now timeout l' (hand_out now picked hs)
unfolding pick_task_from_phase
pick-Agree none last now timeout l hs le a = Agree-later last now timeout l hs le a
pick-Agree (some tasks) last now timeout l hs le a =
    let fresh = unexpired now l.config.dedup_timeout l.dedup in
    let picked = pick now l.config.dedup_timeout fresh tasks in
    let early = AllEarly-mono last now hs le a.early in
    record {
      is_map =
          assign-IsMap now picked fresh
            (unexpired-IsMap now l.config.dedup_timeout l.dedup a.is_map);
      timed = a.timed;
      early = AllEarly-hand_out now picked hs early;
      same = λ later id le' named.
          is_assigned-hand_out now later timeout picked fresh hs id named le' early (
            ap (λ d. is_assigned later timeout (unexpired now d l.dedup) id) a.timed
            ∙ is_assigned-unexpired now later timeout l.dedup id le' a.is_map
            ∙ a.same later id (omega (arith, le, le')) named);
    }

pub rounds-Agree :
    (rs : List Round) (last end timeout : ℕ) (l : Loop) (hs : Handed)
    → last ≤ end
    → All (λ r. last ≤ r.now) rs
    → InOrder rs end
    → Agree last timeout l hs
    → Agree end timeout (rounds rs l) (handed rs l hs)
unfolding rounds handed
rounds-Agree [] last end timeout l hs le after order a = Agree-later last end timeout l hs le a
rounds-Agree (r ∷ rs) last end timeout l hs le after (later, within, order) a =
    let (picked, l') = pick_task_from_phase r.tasks r.now l in
    rounds-Agree rs r.now end timeout l' (hand_out r.now picked hs) within later order
      (pick-Agree r.tasks last r.now timeout l hs after.0 a)
