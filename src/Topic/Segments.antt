-- ===== src/Topic/Segments.antt =====
-- Splitting a text at its slashes, and joining the segments again.
use jack_hotaru_mqtt.Base.{
  ℕ, ◌≡◌, refl, ap, ap₂, ◌∙◌, sym, ◌≢◌, inl, inr, List, [], ◌∷◌, Str, split, join, push_front, ◌==◌,
  ==_iff, Bool-cases, contains, ◌||◌, arith, any,
}

push_front-ne-nil : (b : ℕ) (segs : List Str) → push_front b segs ≢ []
push_front-ne-nil b [] = λ e. cc
push_front-ne-nil b (seg ∷ segs) = λ e. cc

-- `split` never gives the empty list.
pub split-ne-nil : (s : Str) → split s ≢ []
unfolding split
split-ne-nil [] = λ e. cc
split-ne-nil (b ∷ s) = ground (arith, push_front-ne-nil b (split s))

join-cons_nil : (segs : List Str) → segs ≢ [] → join ([] ∷ segs) ≡ b'/' ∷ join segs
unfolding join
join-cons_nil [] h = absurd (h refl)
join-cons_nil (seg ∷ segs) h = refl

join-push_front : (b : ℕ) (segs : List Str) → segs ≢ [] → join (push_front b segs) ≡ b ∷ join segs
unfolding join
join-push_front b [] h = absurd (h refl)
join-push_front b (seg ∷ []) h = refl
join-push_front b (seg ∷ next ∷ segs) h = refl

-- The segments of a text, joined by slashes, are the text.
pub join-split : (s : Str) → join (split s) ≡ s
unfolding split
join-split [] = unfold join in refl
join-split (b ∷ s) = elim (Bool-cases (b == b'/')) [
  | inl slash ↦ rw slash (
      join-cons_nil (split s) (split-ne-nil s)
      ∙ ap₂ (λ c t. c ∷ t) (sym ((==_iff b b'/').0 slash)) (join-split s))
  | inr other ↦
      rw other (join-push_front b (split s) (split-ne-nil s) ∙ ap (λ t. b ∷ t) (join-split s))
]

any-push_front :
    (c b : ℕ) (segs : List Str)
    → segs ≢ []
    → any (contains c) (push_front b segs) ≡ (b == c || any (contains c) segs)
any-push_front c b [] h = absurd (h refl)
any-push_front c b (seg ∷ segs) h = ground arith

-- A byte other than the slash occurs in a text exactly if it occurs in one of its segments.
pub contains-split : (c : ℕ) (s : Str) → c ≢ b'/' → any (contains c) (split s) ≡ contains c s
unfolding split
contains-split c [] h = refl
contains-split c (b ∷ s) h =
    ground (arith, contains-split c s h, any-push_front c b (split s), split-ne-nil s)
