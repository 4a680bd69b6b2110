-- ===== src/Server/Chunks/Whole.antt =====
-- splitIntoChunks: the chunks make up the text, and none is too long unless it is a single line.
use Prim.Native.Nat.{◌≤◌}
use cloche.Base.{ℕ, ◌≡◌, ◌⊎◌, false, List, [], ◌∷◌, ◌++◌, if◌then◌else◌, eqb, length, any}
use cloche.Prompt.Text.{Text}
use cloche.Server.Chunks.{newline}

-- The text with a newline at its end, unless it is empty or has one.
abbrev pub terminated : Text → Text
terminated [] = []
terminated (c ∷ []) = if eqb c 0x0a then c ∷ [] else c ∷ newline
terminated (c ∷ d ∷ s) = c ∷ terminated (d ∷ s)

abbrev pub concat : List Text → Text
concat [] = []
concat (t ∷ ts) = t ++ concat ts

-- Each line with its newline.
abbrev unlines : List Text → Text
unlines [] = []
unlines (l ∷ ls) = l ++ (newline ++ unlines ls)

-- A text without a newline.
abbrev pub IsLine : Text → Type 0
IsLine l = any (λ c. eqb c 0x0a) l ≡ false

-- A chunk that is short enough, or one line with its newline.
abbrev pub IsFit : ℕ → Text → Type 0
IsFit max_size chunk = (length chunk ≤ max_size) ⊎ ((l : Text) × IsLine l × (chunk ≡ l ++ newline))

-- Lines of a text with a character: not just one empty line.
abbrev IsSplit : List Text → Type 0
IsSplit [] = ⊥
IsSplit ([] ∷ []) = ⊥
IsSplit _ = Unit
