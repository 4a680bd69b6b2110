-- ===== src/Docker/Ignore.antt =====
-- internal/adapters/docker/ignore.go. A Go string is its list of bytes. `filepath.Match` and
-- `filepath.Base` are parameters, and so are the lines of the file.
pub mod Rules
pub mod Doublestar
pub mod Splits
use cloche.Base.{
  ℕ, zero, suc, ◌+◌, ◌-◌, Bool, true, false, not, ◌&&◌, ◌||◌, Option, none, some, List, [], ◌∷◌,
  ◌++◌, if◌then◌else◌, eqb, any, length,
}

abbrev pub Bytes : Type 0
Bytes = List ℕ

pub record IgnorePattern : Type 0 where
  pub pattern : Bytes
  pub negated : Bool
  pub dir_only : Bool
  pub anchored : Bool
  pub match_base : Bool

abbrev pub is_empty : Bytes → Bool
is_empty [] = true
is_empty (c ∷ s) = false

-- `strings.HasPrefix` and `strings.HasSuffix` at one byte
abbrev pub starts_with : ℕ → Bytes → Bool
starts_with b [] = false
starts_with b (c ∷ s) = eqb c b

abbrev pub ends_with : ℕ → Bytes → Bool
ends_with b [] = false
ends_with b (c ∷ []) = eqb c b
ends_with b (c ∷ d ∷ s) = ends_with b (d ∷ s)

-- `line[1:]`
abbrev pub rest_of : Bytes → Bytes
rest_of [] = []
rest_of (c ∷ s) = s

-- `strings.TrimRight`
abbrev pub keep : (ℕ → Bool) → ℕ → Bytes → Bytes
keep cut c [] = if cut c then [] else c ∷ []
keep cut c (d ∷ s) = c ∷ d ∷ s

unfoldable pub trim_right : (ℕ → Bool) → Bytes → Bytes
trim_right cut [] = []
trim_right cut (c ∷ s) = keep cut c (trim_right cut s)

abbrev pub is_blank : ℕ → Bool
is_blank c = eqb c b' ' || eqb c 9

abbrev pub is_slash : ℕ → Bool
is_slash c = eqb c b'/'

-- `strings.TrimSuffix(s, "/")` and `strings.TrimPrefix(s, "/")`
unfoldable pub trim_suffix : Bytes → Bytes
trim_suffix [] = []
trim_suffix (c ∷ []) = if is_slash c then [] else c ∷ []
trim_suffix (c ∷ d ∷ s) = c ∷ trim_suffix (d ∷ s)

unfoldable pub trim_prefix : Bytes → Bytes
trim_prefix s = if starts_with b'/' s then rest_of s else s

-- The rule of a line from which the blanks, and a leading "!", are gone.
unfoldable pub rule : Bool → Bytes → IgnorePattern
unfolding trim_right trim_prefix
rule negated line =
    let dir_only = ends_with b'/' line in
    let line' = if dir_only then trim_right is_slash line else line in
    let rooted = starts_with b'/' line' in
    let pattern = trim_prefix line' in
    let nested = any is_slash pattern in
    record {
      pattern = pattern;
      negated = negated;
      dir_only = dir_only;
      anchored = rooted || nested;
      match_base = not nested && not rooted;
    }

unfoldable pub parse_line : Bytes → Option IgnorePattern
unfolding rule
parse_line text =
    let line = trim_right is_blank text in
    if is_empty line || starts_with b'#' line
    then none
    else if starts_with b'!' line
    then some (rule true (rest_of line))
    else some (rule false line)

-- `parseClocheignore`
unfoldable pub parse_clocheignore : List Bytes → List IgnorePattern
parse_clocheignore [] = []
parse_clocheignore (text ∷ texts) = elim (parse_line text) [
  | none ↦ parse_clocheignore texts
  | some p ↦ p ∷ parse_clocheignore texts
]

-- `strings.SplitN(pattern, "**", 2)`, with `none` where `strings.Contains(pattern, "**")` is false
unfoldable pub cut_doublestar : Bytes → Option (Bytes × Bytes)
cut_doublestar [] = none
cut_doublestar (c ∷ []) = none
cut_doublestar (c ∷ d ∷ s) =
    if eqb c b'*' && eqb d b'*'
    then some ([], s)
    else elim (cut_doublestar (d ∷ s)) [ none ↦ none | some (a, b) ↦ some (c ∷ a, b) ]

-- `strings.Split(name, "/")` and `strings.Join(parts, "/")`
abbrev pub push_head : ℕ → List Bytes → List Bytes
push_head c [] = (c ∷ []) ∷ []
push_head c (p ∷ ps) = (c ∷ p) ∷ ps

unfoldable pub components : Bytes → List Bytes
components [] = [] ∷ []
components (c ∷ s) =
    let parts = components s in if is_slash c then [] ∷ parts else push_head c parts

unfoldable pub join : List Bytes → Bytes
join [] = []
join (p ∷ []) = p
join (p ∷ q ∷ ps) = p ++ b'/' ∷ join (q ∷ ps)

-- `nameParts[i:]` at each i, `nameParts[:i]` at each i from 1, and both at each i from 1 that leaves some
unfoldable pub any_suffix : (Bytes → Bool) → List Bytes → Bool
any_suffix test [] = false
any_suffix test (p ∷ ps) = test (join (p ∷ ps)) || any_suffix test ps

unfoldable pub any_prefix : (Bytes → Bool) → List Bytes → List Bytes → Bool
any_prefix test left [] = false
any_prefix test left (p ∷ ps) = test (join (left ++ p ∷ [])) || any_prefix test (left ++ p ∷ []) ps

unfoldable pub any_split : (Bytes → Bool) → (Bytes → Bool) → List Bytes → List Bytes → Bool
any_split before behind left [] = false
any_split before behind left (p ∷ []) = false
any_split before behind left (p ∷ q ∷ ps) =
    (before (join (left ++ p ∷ [])) && behind (join (q ∷ ps)))
    || any_split before behind (left ++ p ∷ []) (q ∷ ps)

-- `matchDoublestar` behind the split, with `matchGlob` for its calls of that
unfoldable pub match_doublestar : (Bytes → Bytes → Bool) → Bytes → Bytes → Bytes → Bool
match_doublestar glob before behind name =
    let prefix = trim_suffix before in
    let suffix = trim_prefix behind in
    let parts = components name in
    if is_empty prefix && is_empty suffix
    then true
    else if is_empty prefix
    then any_suffix (glob suffix) parts
    else if is_empty suffix
    then any_prefix (glob prefix) [] parts
    else any_split (glob prefix) (glob suffix) [] parts

module _ (match : Bytes → Bytes → Bool) where
  -- `matchGlob` and `matchDoublestar`; the fuel bounds the calls that stand one inside another
  unfoldable pub glob : ℕ → Bytes → Bytes → Bool
  glob zero pattern name = false
  glob (suc fuel) pattern name = elim (cut_doublestar pattern) [
    | none ↦ match pattern name
    | some (before, behind) ↦ match_doublestar (glob fuel) before behind name
  ]

  unfoldable pub match_glob : Bytes → Bytes → Bool
  match_glob pattern name = glob (suc (length pattern)) pattern name

module _ (match : Bytes → Bytes → Bool) (base : Bytes → Bytes) where
  -- whether a rule is about a path, and matches it
  unfoldable pub applies : Bytes → Bool → IgnorePattern → Bool
  applies rel_path is_dir p =
      if p.dir_only && not is_dir
      then false
      else if p.match_base
      then match_glob match p.pattern (base rel_path)
      else match_glob match p.pattern rel_path

  unfoldable pub ignored_by : Bytes → Bool → Bool → List IgnorePattern → Bool
  ignored_by rel_path is_dir ignored [] = ignored
  ignored_by rel_path is_dir ignored (p ∷ patterns) =
      ignored_by rel_path is_dir (if applies rel_path is_dir p then not p.negated else ignored)
        patterns

  -- `isIgnored`
  unfoldable pub is_ignored : List IgnorePattern → Bytes → Bool → Bool
  is_ignored patterns rel_path is_dir = ignored_by rel_path is_dir false patterns
