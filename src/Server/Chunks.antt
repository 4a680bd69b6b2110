-- ===== src/Server/Chunks.antt =====
-- splitIntoChunks in internal/adapters/grpc/server.go. A text is its list of bytes.
pub mod Whole
use cloche.Base.{
  ℕ, suc, ◌+◌, Bool, true, false, ◌&&◌, List, [], ◌∷◌, ◌++◌, if◌then◌else◌, ltb, leb, eqb, length,
}
use cloche.Prompt.Text.{Text}
use cloche.Prompt.Commands.{split_lines}

abbrev pub newline : Text
newline = 0x0a ∷ []

-- the last line is left out if it is empty
unfoldable pub drop_last_empty : List Text → List Text
drop_last_empty [] = []
drop_last_empty ([] ∷ []) = []
drop_last_empty ((c ∷ l) ∷ []) = (c ∷ l) ∷ []
drop_last_empty (l ∷ k ∷ ls) = l ∷ drop_last_empty (k ∷ ls)

-- the chunk that is left over behind the loop, if it holds anything
unfoldable pub last_chunk : Text → List Text
last_chunk [] = []
last_chunk (c ∷ cur) = (c ∷ cur) ∷ []

-- the loop over the lines, with the current chunk
unfoldable pub chunk_lines : ℕ → Text → List Text → List Text
unfolding last_chunk
chunk_lines max_size cur [] = last_chunk cur
chunk_lines max_size cur (l ∷ ls) =
    let line = l ++ newline in
    let full = cur ∷ chunk_lines max_size line ls in
    let longer = chunk_lines max_size (cur ++ line) ls in
    if ltb 0 (length cur) && ltb max_size (length cur + length line) then full else longer

or_whole : Text → List Text → List Text
or_whole content [] = content ∷ []
or_whole content (chunk ∷ chunks) = chunk ∷ chunks

-- `splitIntoChunks`
unfoldable pub split_into_chunks : Text → ℕ → List Text
unfolding split_lines drop_last_empty chunk_lines or_whole
split_into_chunks content max_size =
    if leb (length content) max_size
    then content ∷ []
    else or_whole content (chunk_lines max_size [] (drop_last_empty (split_lines content)))
