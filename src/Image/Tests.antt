-- ===== src/Image/Tests.antt =====
-- An image of three bytes.
use challanse_website.Image.{Decoded, webp}
use challanse_website.Prelude.{ℕ, String, List, [], ◌∷◌}

abbrev sha : List ℕ → String
sha bytes = "abc"

abbrev decode : List ℕ → Decoded
decode bytes = webp

abbrev bytes : List ℕ
bytes = 1 ∷ 2 ∷ 3 ∷ []
