-- ===== src/Topic/Runs.antt =====
-- Concrete patterns and topics, from lib/go/qdp_test.go, and the theorems at concrete inputs.
use Prim.Native.Char.{code}
use Prim.Native.String.{String}
use qdp.Base.{ℕ, ◌≡◌, ◌↔◌, refl, List, [], ◌∷◌, Bool, true, false, length, arith}
use qdp.Topic.{match_topic, split, bytes_eq, last_part, match_parts}
use qdp.Topic.Matching.{Matches, Reaches, match_topic_iff, match_topic-plain, match_topic-levels}

-- The bytes of an ASCII text.
abbrev bytes : String → List ℕ
bytes String.[] = []
bytes (String.◌∷◌ c s) = code c ∷ bytes s

matching : String → String → Bool
unfolding match_topic split bytes_eq last_part match_parts
matching pattern topic = match_topic (bytes pattern) (bytes topic)

topic_tests :
    (matching "sensor/temp" "sensor/temp" ≡ true)
    × (matching "sensor/+/temp" "sensor/1/temp" ≡ true)
    × (matching "sensor/+/temp" "sensor/temp" ≡ false)
    × (matching "sensor/#" "sensor/temp" ≡ true)
    × (matching "sensor/#" "sensor/temp/value" ≡ true)
    × (matching "sensor/+/temp" "sensor/1/humidity" ≡ false)
    × (matching "sensor/#" "sensor" ≡ false)
    × (matching "a/#/b" "a/x/y" ≡ true)
unfolding matching
topic_tests = (refl, refl, refl, refl, refl, refl, refl, refl)

match_topic_iff_example : (match_topic (bytes "a/+") (bytes "a/b") ≡ true) ↔ (
    Matches (split (bytes "a/+")) (split (bytes "a/b"))
    × Reaches (split (bytes "a/+")) (split (bytes "a/b")))
match_topic_iff_example = match_topic_iff (bytes "a/+") (bytes "a/b")

plain_pattern : (match_topic (bytes "a/b") (bytes "a/c") ≡ true) ↔ (bytes "a/b" ≡ bytes "a/c")
unfolding split
plain_pattern =
    match_topic-plain (bytes "a/b") (bytes "a/c")
      ((λ e. grind arith, λ e. grind arith), ((λ e. grind arith, λ e. grind arith), tt))

-- A level for a '+'.
one_level : length (split (bytes "a/+")) ≡ length (split (bytes "a/b"))
unfolding match_topic split bytes_eq last_part match_parts
one_level =
    match_topic-levels (bytes "a/+") (bytes "a/b") (λ e. grind arith, (λ e. grind arith, tt)) refl
