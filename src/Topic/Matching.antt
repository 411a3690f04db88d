-- ===== src/Topic/Matching.antt =====
-- `matchTopic` of lib/go/qdp.go decides a relation between levels of a pattern and of a topic.
use qdp.Base.{
  ℕ, suc, ◌≤◌, ◌≡◌, ◌≢◌, ◌↔◌, ◌⊎◌, refl, sym, ap, ap₂, ◌∙◌, ◌==◌, ltb, not, List, [], ◌∷◌, Bool,
  true, false, ◌&&◌, length, arith, Bool-cases, inl, inr, ltb→ge, ge→ltb, All,
}
use native.Mathlib.Nat.{le_refl}
use qdp.Topic.{bytes_eq, hash, plus, split, last_part, match_parts, match_topic}
use qdp.Topic.Split.{bytes_eq→eq, bytes_eq_refl, split-cons, split-injective}

-- Levels of a pattern over levels of a topic: '#' takes one level or more and ends the comparison,
-- '+' takes one level, and any other level takes its like.
pub data Matches : List (List ℕ) → List (List ℕ) → Type 0 where
  none_left : Matches [] []
  all_levels : {p t : List ℕ} {ps ts : List (List ℕ)} → p ≡ hash → Matches (p ∷ ps) (t ∷ ts)
  any_level :
      {p t : List ℕ} {ps ts : List (List ℕ)} → p ≡ plus → Matches ps ts → Matches (p ∷ ps) (t ∷ ts)
  same_level :
      {p t : List ℕ} {ps ts : List (List ℕ)} → p ≡ t → Matches ps ts → Matches (p ∷ ps) (t ∷ ts)

suc-==-suc : (a b : ℕ) → (suc a == suc b) ≡ (a == b)
suc-==-suc a b = ground arith

-- The lengths of the whole lists are equal just when those of the remaining ones are.
match_parts→Matches :
    (ps ts : List (List ℕ)) → match_parts ps ts (length ts == length ps) ≡ true → Matches ps ts
unfolding match_parts
match_parts→Matches [] [] h = none_left
match_parts→Matches [] (t ∷ ts) h = absurd (ground arith)
match_parts→Matches (p ∷ ps) [] h = cc
match_parts→Matches (p ∷ ps) (t ∷ ts) h =
    let rest : match_parts ps ts (suc (length ts) == suc (length ps)) ≡ true → Matches ps ts =
      λ k. match_parts→Matches ps ts (rw (suc-==-suc (length ts) (length ps)) at k) in
    elim (Bool-cases (bytes_eq p hash)) [
      | inl e ↦ all_levels (bytes_eq→eq p hash e)
      | inr no_hash ↦ elim (Bool-cases (bytes_eq p plus)) [
        | inl e ↦ any_level (bytes_eq→eq p plus e) (rest (rw (no_hash, e) at h))
        | inr no_plus ↦ elim (Bool-cases (bytes_eq p t)) [
          | inl e ↦ same_level (bytes_eq→eq p t e) (rest (rw (no_hash, no_plus, e) at h))
          | inr differs ↦ absurd (cc (rw (no_hash, no_plus, differs) at h))
        ]
      ]
    ]

-- One level of the loop, once its outcome beyond the first level is known.
match_level :
    (p t : List ℕ) (ps ts : List (List ℕ)) (same : Bool)
    → (p ≡ plus) ⊎ (p ≡ t)
    → match_parts ps ts same ≡ true
    → match_parts (p ∷ ps) (t ∷ ts) same ≡ true
unfolding match_parts
match_level p t ps ts same (inl e) m = elim (Bool-cases (bytes_eq p hash)) [
  | inl h ↦ rw h
  | inr h ↦ rw (h, ap (λ x. bytes_eq x plus) e ∙ bytes_eq_refl plus) m
]
match_level p t ps ts same (inr e) m = elim (Bool-cases (bytes_eq p hash)) [
  | inl h ↦ rw h
  | inr h ↦ elim (Bool-cases (bytes_eq p plus)) [
    | inl k ↦ rw (h, k) m
    | inr k ↦ rw (h, k, ap (bytes_eq p) (sym e) ∙ bytes_eq_refl p) m
  ]
]

Matches→match_parts :
    {ps ts : List (List ℕ)} → Matches ps ts → match_parts ps ts (length ts == length ps) ≡ true
Matches→match_parts none_left = unfold match_parts in refl
Matches→match_parts (all_levels {p = p} e) =
    unfold match_parts in rw (ap (λ x. bytes_eq x hash) e ∙ bytes_eq_refl hash)
Matches→match_parts (any_level {p = p} {t = t} {ps = ps} {ts = ts} e m) =
    rw (suc-==-suc (length ts) (length ps))
      (match_level p t ps ts (length ts == length ps) (inl e) (Matches→match_parts m))
Matches→match_parts (same_level {p = p} {t = t} {ps = ps} {ts = ts} e m) =
    rw (suc-==-suc (length ts) (length ps))
      (match_level p t ps ts (length ts == length ps) (inr e) (Matches→match_parts m))

-- The pattern is no longer than the topic, or ends in '#'.
abbrev pub Reaches : List (List ℕ) → List (List ℕ) → Type 0
Reaches ps ts = (length ps ≤ length ts) ⊎ (last_part ps ≡ hash)

split-hash : split hash ≡ hash ∷ []
unfolding split
split-hash = refl

hash-Matches : (topic : List ℕ) → Matches (split hash) (split topic)
hash-Matches topic = let (p, ps, e) = split-cons topic in rw (e, split-hash) (all_levels refl)

last_part-hash : last_part (split hash) ≡ hash
unfolding last_part
last_part-hash = rw split-hash

-- The test on the lengths passes just for the patterns that reach.
Reaches-test :
    (ps ts : List (List ℕ))
    → (ltb (length ts) (length ps) && not (bytes_eq (last_part ps) hash)) ≡ false
    → Reaches ps ts
Reaches-test ps ts h = elim (Bool-cases (ltb (length ts) (length ps))) [
  | inr fits ↦ inl (ltb→ge (length ts) (length ps) fits)
  | inl long ↦ elim (Bool-cases (bytes_eq (last_part ps) hash)) [
    | inl e ↦ inr (bytes_eq→eq (last_part ps) hash e)
    | inr e ↦ absurd (cc (rw (long, e) at h))
  ]
]

test-Reaches :
    (ps ts : List (List ℕ))
    → Reaches ps ts
    → (ltb (length ts) (length ps) && not (bytes_eq (last_part ps) hash)) ≡ false
test-Reaches ps ts (inl h) = rw (ge→ltb (length ts) (length ps) h)
test-Reaches ps ts (inr e) = elim (Bool-cases (ltb (length ts) (length ps))) [
  | inl long ↦ rw (long, ap (λ x. bytes_eq x hash) e ∙ bytes_eq_refl hash)
  | inr fits ↦ rw fits
]

match_topic→Matches :
    (pattern topic : List ℕ)
    → match_topic pattern topic ≡ true
    → Matches (split pattern) (split topic) × Reaches (split pattern) (split topic)
unfolding match_topic
match_topic→Matches pattern topic h = elim (Bool-cases (bytes_eq pattern hash)) [
  | inl e ↦ rw (bytes_eq→eq pattern hash e) (hash-Matches topic, inr last_part-hash)
  | inr e ↦
      elim (Bool-cases (
        ltb (length (split topic)) (length (split pattern))
        && not (bytes_eq (last_part (split pattern)) hash))) [
          | inl long ↦ absurd (cc (rw (e, long) at h))
          | inr fits ↦ (
            match_parts→Matches (split pattern) (split topic) (rw (e, fits) at h),
            Reaches-test (split pattern) (split topic) fits,
          )
        ]
]

Matches→match_topic :
    (pattern topic : List ℕ)
    → Matches (split pattern) (split topic)
    → Reaches (split pattern) (split topic)
    → match_topic pattern topic ≡ true
unfolding match_topic
Matches→match_topic pattern topic m r = elim (Bool-cases (bytes_eq pattern hash)) [
  | inl e ↦ rw e
  | inr e ↦ rw (e, test-Reaches (split pattern) (split topic) r) (Matches→match_parts m)
]

-- `matchTopic` is true exactly when the levels of the pattern match those of the topic, and the
-- pattern has no more levels than the topic or has '#' as its last.
pub match_topic_iff :
    (pattern topic : List ℕ)
    → (match_topic pattern topic ≡ true)
      ↔ (Matches (split pattern) (split topic) × Reaches (split pattern) (split topic))
match_topic_iff pattern topic =
    (match_topic→Matches pattern topic, λ h. Matches→match_topic pattern topic h.0 h.1)

-- A level that is no wildcard.
abbrev pub IsPlain : List ℕ → Type 0
IsPlain p = (p ≢ hash) × (p ≢ plus)

Matches-plain : {ps ts : List (List ℕ)} → All IsPlain ps → Matches ps ts → ps ≡ ts
Matches-plain h none_left = refl
Matches-plain h (all_levels e) = absurd (h.0.0 e)
Matches-plain h (any_level e m) = absurd (h.0.1 e)
Matches-plain h (same_level e m) = ap₂ ◌∷◌ e (Matches-plain h.1 m)

Matches-refl : (ps : List (List ℕ)) → Matches ps ps
Matches-refl [] = none_left
Matches-refl (p ∷ ps) = same_level refl (Matches-refl ps)

-- A pattern without wildcard levels matches the topic that is equal to it, and no other.
pub match_topic-plain :
    (pattern topic : List ℕ)
    → All IsPlain (split pattern)
    → (match_topic pattern topic ≡ true) ↔ (pattern ≡ topic)
match_topic-plain pattern topic plain = (
  λ h. split-injective pattern topic (Matches-plain plain (match_topic→Matches pattern topic h).0),
  λ e.
      rw (← e)
        (Matches→match_topic pattern pattern (Matches-refl (split pattern)) (inl (le_refl _))),
)

Matches-length :
    {ps ts : List (List ℕ)} → All (λ p. p ≢ hash) ps → Matches ps ts → length ps ≡ length ts
Matches-length h none_left = refl
Matches-length h (all_levels e) = absurd (h.0 e)
Matches-length h (any_level e m) = ap suc (Matches-length h.1 m)
Matches-length h (same_level e m) = ap suc (Matches-length h.1 m)

-- '+' stands for one level: a pattern without '#' matches only topics of as many levels.
pub match_topic-levels :
    (pattern topic : List ℕ)
    → All (λ p. p ≢ hash) (split pattern)
    → match_topic pattern topic ≡ true
    → length (split pattern) ≡ length (split topic)
match_topic-levels pattern topic h m = Matches-length h (match_topic→Matches pattern topic m).0
