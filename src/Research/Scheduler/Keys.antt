-- ===== src/Research/Scheduler/Keys.antt =====
-- The order of scheduled cells, stated with no reference to the code's comparisons, and that the keys of
-- `schedule` follow it (research/scheduler/score.py).
use mathlib.Core.Path.{subst}
use research_os.Common.{
  ◌<◌, ℤ, pos, negsuc, Bool, true, false, ◌&&◌, ◌||◌, [], ◌∷◌, ◌≡◌, refl, sym, ap, ◌∙◌, ◌⊎◌, inl,
  inr, arith,
}
use research_os.Common.Text.{Text, text_eq, eq_of_text_eq}
use research_os.Research.Scheduler.{ScoredCell, text_less, less, equal, key_less}

-- One integer is below another.
abbrev pub IsBelow : ℤ → ℤ → Type 0
IsBelow (pos a) (pos b) = a < b
IsBelow (pos a) (negsuc b) = ⊥
IsBelow (negsuc a) (pos b) = Unit
IsBelow (negsuc a) (negsuc b) = b < a

-- The order of dictionaries: a text stands before those that it begins, and before those with a greater
-- character at the first place where they differ.
abbrev pub IsTextBelow : Text → Text → Type 0
IsTextBelow s [] = ⊥
IsTextBelow [] (b ∷ t) = Unit
IsTextBelow (a ∷ s) (b ∷ t) = (a < b) ⊎ ((a ≡ b) × IsTextBelow s t)

-- A cell may stand before another: its score is higher, or the scores are equal and its node key, then its
-- identity, then its family, is the smaller one, or nothing tells the two apart.
pub IsBefore : ScoredCell → ScoredCell → Type 0
IsBefore a b =
    IsBelow b.score.total_score a.score.total_score
    ⊎ ((a.score.total_score ≡ b.score.total_score)
        × (IsTextBelow a.cell.node_canonical_key b.cell.node_canonical_key
            ⊎ ((a.cell.node_canonical_key ≡ b.cell.node_canonical_key)
                × (IsTextBelow a.cell.identity_id b.cell.identity_id
                    ⊎ ((a.cell.identity_id ≡ b.cell.identity_id)
                        × (IsTextBelow a.cell.family_id b.cell.family_id
                            ⊎ (a.cell.family_id ≡ b.cell.family_id)))))))

IsBelow-trans : (a b c : ℤ) → IsBelow a b → IsBelow b c → IsBelow a c
IsBelow-trans (pos a) (pos b) (pos c) h k = omega arith
IsBelow-trans (pos a) (pos b) (negsuc c) h k = absurd k
IsBelow-trans (pos a) (negsuc b) c h k = absurd h
IsBelow-trans (negsuc a) (pos b) (pos c) h k = tt
IsBelow-trans (negsuc a) (pos b) (negsuc c) h k = absurd k
IsBelow-trans (negsuc a) (negsuc b) (pos c) h k = tt
IsBelow-trans (negsuc a) (negsuc b) (negsuc c) h k = omega arith

IsTextBelow-trans : (s t u : Text) → IsTextBelow s t → IsTextBelow t u → IsTextBelow s u
IsTextBelow-trans s [] u h k = absurd h
IsTextBelow-trans s (b ∷ t) [] h k = absurd k
IsTextBelow-trans [] (b ∷ t) (c ∷ u) h k = tt
IsTextBelow-trans (a ∷ s) (b ∷ t) (c ∷ u) (inl x) (inl y) = inl (omega arith)
IsTextBelow-trans (a ∷ s) (b ∷ t) (c ∷ u) (inl x) (inr y) = inl (omega (arith, y.0))
IsTextBelow-trans (a ∷ s) (b ∷ t) (c ∷ u) (inr x) (inl y) = inl (omega (arith, x.0))
IsTextBelow-trans (a ∷ s) (b ∷ t) (c ∷ u) (inr x) (inr y) =
    inr (x.0 ∙ y.0, IsTextBelow-trans s t u x.1 y.1)

-- One place of a tuple in front of the places that follow
place_trans :
    {A : Type 0} (L : A → A → Type 0)
    → ((x y z : A) → L x y → L y z → L x z)
    → (x y z : A) {P Q R : Type 0} → (P → Q → R)
    → L x y ⊎ ((x ≡ y) × P)
    → L y z ⊎ ((y ≡ z) × Q)
    → L x z ⊎ ((x ≡ z) × R)
place_trans L f x y z g (inl h) (inl k) = inl (f x y z h k)
place_trans L f x y z g (inl h) (inr k) = inl (subst (L x) k.0 h)
place_trans L f x y z g (inr h) (inl k) = inl (subst (λ w. L w z) (sym h.0) k)
place_trans L f x y z g (inr h) (inr k) = inr (h.0 ∙ k.0, g h.1 k.1)

last_trans :
    (s t u : Text)
    → IsTextBelow s t ⊎ (s ≡ t)
    → IsTextBelow t u ⊎ (t ≡ u)
    → IsTextBelow s u ⊎ (s ≡ u)
last_trans s t u (inl h) (inl k) = inl (IsTextBelow-trans s t u h k)
last_trans s t u (inl h) (inr k) = inl (subst (IsTextBelow s) k h)
last_trans s t u (inr h) (inl k) = inl (subst (λ w. IsTextBelow w u) (sym h) k)
last_trans s t u (inr h) (inr k) = inr (h ∙ k)

pub IsBefore-trans : (a b c : ScoredCell) → IsBefore a b → IsBefore b c → IsBefore a c
unfolding IsBefore
IsBefore-trans a b c =
    place_trans (λ x y. IsBelow y x) (λ x y z h k. IsBelow-trans z y x k h) a.score.total_score
      b.score.total_score c.score.total_score
      (place_trans IsTextBelow IsTextBelow-trans a.cell.node_canonical_key b.cell.node_canonical_key
        c.cell.node_canonical_key
        (place_trans IsTextBelow IsTextBelow-trans a.cell.identity_id b.cell.identity_id
          c.cell.identity_id (last_trans a.cell.family_id b.cell.family_id c.cell.family_id)))

-- A comparison that says yes, and one that says no
less-true : (a b : ℤ) → less a b ≡ true → IsBelow a b
unfolding less
less-true (pos a) (pos b) h = ground arith
less-true (pos a) (negsuc b) h = cc
less-true (negsuc a) (pos b) h = tt
less-true (negsuc a) (negsuc b) h = ground arith

less-false : (a b : ℤ) → less a b ≡ false → IsBelow b a ⊎ ((b ≡ a) × (equal a b ≡ true))
unfolding less
less-false (pos a) (pos b) h = ground arith
less-false (pos a) (negsuc b) h = inl tt
less-false (negsuc a) (pos b) h = cc
less-false (negsuc a) (negsuc b) h = ground arith

eq_of_equal : (a b : ℤ) → equal a b ≡ true → a ≡ b
eq_of_equal (pos a) (pos b) h = ap pos (ground arith)
eq_of_equal (pos a) (negsuc b) h = cc
eq_of_equal (negsuc a) (pos b) h = cc
eq_of_equal (negsuc a) (negsuc b) h = ap negsuc (ground arith)

text_less-true : (s t : Text) → text_less s t ≡ true → IsTextBelow s t
unfolding text_less
text_less-true s [] h = cc
text_less-true [] (b ∷ t) h = tt
text_less-true (a ∷ s) (b ∷ t) h = ground (arith, text_less-true s t)

text_less-false :
    (s t : Text) → text_less s t ≡ false → IsTextBelow t s ⊎ ((t ≡ s) × (text_eq s t ≡ true))
unfolding text_less
text_less-false [] [] h = inr (refl, refl)
text_less-false (a ∷ s) [] h = inl tt
text_less-false [] (b ∷ t) h = cc
text_less-false (a ∷ s) (b ∷ t) h = ground (arith, text_less-false s t)

place-true :
    (l e r : Bool) {L E R : Type 0}
    → (l ≡ true → L)
    → (e ≡ true → E)
    → (r ≡ true → R)
    → (l || (e && r)) ≡ true
    → L ⊎ (E × R)
place-true true e r f g k h = inl (f refl)
place-true false true true f g k h = inr (g refl, k refl)
place-true false true false f g k h = cc
place-true false false r f g k h = cc

place-false :
    (l e r : Bool) {L E R : Type 0}
    → (l ≡ false → L ⊎ (E × (e ≡ true)))
    → (r ≡ false → R)
    → (l || (e && r)) ≡ false
    → L ⊎ (E × R)
place-false true e r f k h = cc
place-false false e r f k h = elim (f refl) [
  | inl above ↦ inl above
  | inr (same, said) ↦ inr (same, k (rest_no e r said h))
]
  where
    rest_no : (e r : Bool) → e ≡ true → (e && r) ≡ false → r ≡ false
    rest_no true r said h = h
    rest_no false r said h = cc

-- The keys put a cell before another, or do not put the other before it.
pub key_less-true : (a b : ScoredCell) → key_less a b ≡ true → IsBefore a b
unfolding key_less IsBefore
key_less-true a b =
    place-true _ _ _ (less-true b.score.total_score a.score.total_score)
      (λ e. sym (eq_of_equal b.score.total_score a.score.total_score e))
      (place-true _ _ _ (text_less-true a.cell.node_canonical_key b.cell.node_canonical_key)
        (eq_of_text_eq a.cell.node_canonical_key b.cell.node_canonical_key)
        (place-true _ _ _ (text_less-true a.cell.identity_id b.cell.identity_id)
          (eq_of_text_eq a.cell.identity_id b.cell.identity_id)
          (λ h. inl (text_less-true a.cell.family_id b.cell.family_id h))))

pub key_less-false : (a b : ScoredCell) → key_less b a ≡ false → IsBefore a b
unfolding key_less IsBefore
key_less-false a b = place-false _ _ _ (score_no a.score.total_score b.score.total_score) (
    place-false _ _ _ (text_less-false b.cell.node_canonical_key a.cell.node_canonical_key) (
      place-false _ _ _ (text_less-false b.cell.identity_id a.cell.identity_id)
        (λ h. last_no a.cell.family_id b.cell.family_id h)))
  where
    score_no : (x y : ℤ) → less x y ≡ false → IsBelow y x ⊎ ((x ≡ y) × (equal x y ≡ true))
    score_no x y h = elim (less-false x y h) [
      | inl above ↦ inl above
      | inr (same, said) ↦ inr (sym same, said)
    ]

    last_no : (s t : Text) → text_less t s ≡ false → IsTextBelow s t ⊎ (s ≡ t)
    last_no s t h = elim (text_less-false t s h) [
      | inl below ↦ inl below
      | inr (same, said) ↦ inr same
    ]
