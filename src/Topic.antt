-- ===== src/Topic.antt =====
-- lib/go/qdp.go: `matchTopic`, and `strings.Split` at the one separator that it uses.
pub mod Split
pub mod Matching
mod Runs
use qdp.Base.{
  ℕ, ltb, ◌==◌, if◌then◌else◌, not, List, [], ◌∷◌, Bool, true, false, ◌&&◌, ◌||◌, length,
}

-- Equality of two strings.
unfoldable pub bytes_eq : List ℕ → List ℕ → Bool
bytes_eq [] [] = true
bytes_eq [] (b ∷ bs) = false
bytes_eq (a ∷ as') [] = false
bytes_eq (a ∷ as') (b ∷ bs) = a == b && bytes_eq as' bs

abbrev pub separator : ℕ
separator = b'/'

abbrev pub hash : List ℕ
hash = b'#' ∷ []

abbrev pub plus : List ℕ
plus = b'+' ∷ []

-- A byte joins the first part.
abbrev pub join_first : ℕ → List (List ℕ) → List (List ℕ)
join_first c [] = (c ∷ []) ∷ []
join_first c (p ∷ ps) = (c ∷ p) ∷ ps

-- strings.Split(s, "/"): never empty, and "" is one empty part.
unfoldable pub split : List ℕ → List (List ℕ)
split [] = [] ∷ []
split (c ∷ s) = let rest = split s in if c == separator then [] ∷ rest else join_first c rest

-- patternParts[len(patternParts)-1]; the parts are never empty.
unfoldable pub last_part : List (List ℕ) → List ℕ
last_part [] = []
last_part (p ∷ []) = p
last_part (p ∷ q ∷ ps) = last_part (q ∷ ps)

-- The loop over the parts of the pattern, from the i-th on, beside those of the topic. `same` is the
-- comparison of the two lengths that follows the loop.
unfoldable pub match_parts : List (List ℕ) → List (List ℕ) → Bool → Bool
match_parts [] ts same = same
match_parts (p ∷ ps) [] same = false
match_parts (p ∷ ps) (t ∷ ts) same =
    let rest = match_parts ps ts same in
    if bytes_eq p hash
    then true
    else (if not (bytes_eq p plus) && not (bytes_eq p t) then false else rest)

unfoldable pub match_topic : List ℕ → List ℕ → Bool
match_topic pattern topic =
    let pattern_parts = split pattern in
    let topic_parts = split topic in
    if bytes_eq pattern hash
    then true
    else (if ltb (length topic_parts) (length pattern_parts)
          && not (bytes_eq (last_part pattern_parts) hash)
        then false
        else match_parts pattern_parts topic_parts (length topic_parts == length pattern_parts))
