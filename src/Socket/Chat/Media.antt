-- ===== src/Socket/Chat/Media.antt =====
-- pkg/socket/handler.go: ParseMessageMedia takes the urls of images out of a message.
use streaming_server.Base.{ℕ, ◌+◌, ◌≤◌, List, [], ◌∷◌, Option, none, some, length}
use streaming_server.Base.Text.{Str}

-- A length that is found is not 0, and no more than there is.
abbrev Fits : Option ℕ → ℕ → Type 0
Fits none n = Unit
Fits (some k) n = (1 ≤ k) × (k ≤ n)

-- The bytes of all urls.
abbrev pub bytes_in : List Str → ℕ
bytes_in [] = 0
bytes_in (u ∷ us) = length u + bytes_in us
