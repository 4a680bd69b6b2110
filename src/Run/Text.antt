-- ===== src/Run/Text.antt =====
-- internal/domain/run.go: the active steps of a run as one column of the database.
use Prim.Native.Char.{code}
use Prim.Native.String.{String}
use cloche.Base.{◌≡◌, ◌≢◌, false, List, [], ◌∷◌, ◌==◌, if◌then◌else◌, All, All-map, arith, eq_iff}
use cloche.Base.Text.{split, join, split-join, join-nonempty, contains_code}
use cloche.Run.{Run}

-- `ActiveStepsString`
unfoldable pub active_steps_string : Run → String
active_steps_string r = join "," r.active_steps

-- `SetActiveStepsFromString`
unfoldable pub set_active_steps_from_string : String → Run → Run
set_active_steps_from_string s r = record r {
  active_steps = if s == "" then [] else split (code ",") s;
}

-- A step name that the column can hold.
abbrev pub IsPlain : String → Type 0
IsPlain name = (contains_code (code ",") name ≡ false) × (name ≢ "")

-- Whatever the other run is, the active steps that were written are read back, if no name is empty or
-- holds a comma.
pub set_active_steps_from_string-active_steps_string :
    (r other : Run)
    → All IsPlain r.active_steps
    → (set_active_steps_from_string (active_steps_string r) other).active_steps ≡ r.active_steps
unfolding set_active_steps_from_string active_steps_string join
set_active_steps_from_string-active_steps_string r other h = read_back r.active_steps h
  where
    read_back :
        (names : List String)
        → All IsPlain names
        → (if join "," names == "" then [] else split (code ",") (join "," names)) ≡ names
    read_back [] h = ground arith
    read_back (p ∷ ps) (k, ks) = ground (
      arith,
      eq_iff (join "," (p ∷ ps)) "",
      join-nonempty "," p ps k.1,
      split-join "," p ps (k.0, All-map (λ name plain. plain.0) ps ks),
    )
