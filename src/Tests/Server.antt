-- ===== src/Tests/Server.antt =====
-- The theorem about chunks of logs on concrete data.
use cloche.Base.{◌≡◌, refl, [], ◌∷◌}
use cloche.Prompt.Text.{Text}
use cloche.Server.Chunks.{split_into_chunks}

abbrev log : Text
log = b'a' ∷ 0x0a ∷ b'b' ∷ 0x0a ∷ b'c' ∷ b'd' ∷ b'e' ∷ b'f' ∷ []

-- The last line is longer than a chunk may be, and gets a newline.
chunks_of_log :
    split_into_chunks log 4
    ≡ (b'a' ∷ 0x0a ∷ b'b' ∷ 0x0a ∷ []) ∷ (b'c' ∷ b'd' ∷ b'e' ∷ b'f' ∷ 0x0a ∷ []) ∷ []
unfolding split_into_chunks
chunks_of_log = refl
