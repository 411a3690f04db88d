-- ===== src/Topic/Split.antt =====
-- `strings.Split` at '/' loses nothing.
use qdp.Base.{
  ℕ, ◌≤◌, ◌≡◌, ◌≢◌, refl, sym, ap, ap₂, ◌∙◌, ◌==◌, List, [], ◌∷◌, ◌++◌, true, false, length, arith,
  Bool-cases, inl, inr, ==→eq, ==-refl,
}
use qdp.Topic.{bytes_eq, separator, split}

pub bytes_eq→eq : (a b : List ℕ) → bytes_eq a b ≡ true → a ≡ b
unfolding bytes_eq
bytes_eq→eq [] [] h = refl
bytes_eq→eq [] (b ∷ bs) h = cc
bytes_eq→eq (a ∷ as') [] h = cc
bytes_eq→eq (a ∷ as') (b ∷ bs) h = elim (Bool-cases (a == b)) [
  | inl e ↦ ap₂ ◌∷◌ (==→eq a b e) (bytes_eq→eq as' bs (rw e at h))
  | inr e ↦ absurd (cc (rw e at h))
]

pub bytes_eq_refl : (a : List ℕ) → bytes_eq a a ≡ true
unfolding bytes_eq
bytes_eq_refl [] = refl
bytes_eq_refl (a ∷ as') = rw (==-refl a, bytes_eq_refl as')

pub bytes_eq-ne : (a b : List ℕ) → a ≢ b → bytes_eq a b ≡ false
bytes_eq-ne a b h = elim (Bool-cases (bytes_eq a b)) [
  | inl e ↦ absurd (h (bytes_eq→eq a b e))
  | inr e ↦ e
]

-- The parts with a separator between each two.
abbrev pub join : List (List ℕ) → List ℕ
join [] = []
join (p ∷ []) = p
join (p ∷ q ∷ ps) = p ++ (separator ∷ join (q ∷ ps))

pub split-cons : (s : List ℕ) → (p : List ℕ) × (ps : List (List ℕ)) × (split s ≡ p ∷ ps)
unfolding split
split-cons [] = ([], [], refl)
split-cons (c ∷ s) =
    let (p, ps, e) = split-cons s in
    elim (Bool-cases (c == separator)) [
      | inl h ↦ ([], p ∷ ps, rw (h, e))
      | inr h ↦ (c ∷ p, ps, rw (h, e))
    ]

join-first : (c : ℕ) (p : List ℕ) (ps : List (List ℕ)) → join ((c ∷ p) ∷ ps) ≡ c ∷ join (p ∷ ps)
join-first c p [] = refl
join-first c p (q ∷ ps) = refl

-- Joining the parts of a split gives back the string.
pub join-split : (s : List ℕ) → join (split s) ≡ s
unfolding split
join-split [] = refl
join-split (c ∷ s) =
    let (p, ps, e) = split-cons s in
    elim (Bool-cases (c == separator)) [
      | inl h ↦ rw (h, e) (ap₂ ◌∷◌ (sym (==→eq c separator h)) (ap join (sym e) ∙ join-split s))
      | inr h ↦ rw (h, e) (join-first c p ps ∙ ap (◌∷◌ c) (ap join (sym e) ∙ join-split s))
    ]

pub split-injective : (s t : List ℕ) → split s ≡ split t → s ≡ t
split-injective s t e = sym (join-split s) ∙ ap join e ∙ join-split t

pub length-split_pos : (s : List ℕ) → 1 ≤ length (split s)
length-split_pos s = let (p, ps, e) = split-cons s in rw e (omega arith)
