-- ===== src/Common/Lists.antt =====
-- Lists with Boolean tests, and predicates on their elements.
use Prim.Native.Nat.{ℕ, suc, ◌+◌}
use mathlib.Core.Path.{subst, ◌≡◌, refl, ◌∙◌}
use mathlib.Core.Logic.{◌↔◌, ◌⊎◌, ∥∥₁_elim}
use mathlib.Core.Bool.{Bool, true, false, not, ◌&&◌, ◌||◌}
use mathlib.Core.List.{List, [], ◌∷◌, ◌++◌, map, Perm, Permᴰ}
use native.Mathlib.Omega.{arith}

module _ {ℓ} {A : Type ℓ} where
  abbrev pub length : List A → ℕ
  length [] = 0
  length (x ∷ xs) = suc (length xs)

  -- `any(p(x) for x in xs)` and `all(...)`
  abbrev pub any : (A → Bool) → List A → Bool
  any p [] = false
  any p (x ∷ xs) = p x || any p xs

  abbrev pub all : (A → Bool) → List A → Bool
  all p [] = true
  all p (x ∷ xs) = p x && all p xs

  abbrev keep_first : Bool → A → List A → List A
  keep_first true x xs = x ∷ xs
  keep_first false x xs = xs

  -- `[x for x in xs if p(x)]`
  abbrev pub keep : (A → Bool) → List A → List A
  keep p [] = []
  keep p (x ∷ xs) = keep_first (p x) x (keep p xs)

  abbrev pub is_empty : List A → Bool
  is_empty [] = true
  is_empty (x ∷ xs) = false

Bool_set : IsSet Bool
Bool_set = hlevel

module _ {ℓ} {A : Type ℓ} where
  pub length-append : (xs ys : List A) → length (xs ++ ys) ≡ length xs + length ys
  length-append [] ys = omega arith
  length-append (x ∷ xs) ys = omega (arith, length-append xs ys)

  pub any-append : (p : A → Bool) (xs ys : List A) → any p (xs ++ ys) ≡ (any p xs || any p ys)
  any-append p [] ys = refl
  any-append p (x ∷ xs) ys = ground (arith, any-append p xs ys)

  any-permᴰ : (p : A → Bool) {xs ys : List A} → Permᴰ xs ys → any p xs ≡ any p ys
  any-permᴰ p Permᴰ.nil = refl
  any-permᴰ p (Permᴰ.cons e h) = rw (e, any-permᴰ p h)
  any-permᴰ p (Permᴰ.swap d e) = rw (d, e) (ground arith)
  any-permᴰ p (Permᴰ.trans h k) = any-permᴰ p h ∙ any-permᴰ p k

  pub any-perm : (p : A → Bool) {xs ys : List A} → Perm xs ys → any p xs ≡ any p ys
  any-perm p h = ∥∥₁_elim h (Bool_set _ _) (any-permᴰ p)

  pub keep-append : (p : A → Bool) (xs ys : List A) → keep p (xs ++ ys) ≡ keep p xs ++ keep p ys
  keep-append p [] ys = refl
  keep-append p (x ∷ xs) ys = ground (arith, keep-append p xs ys)

  -- A nonempty selection is an element that passes.
  pub is_empty-keep : (p : A → Bool) (xs : List A) → is_empty (keep p xs) ≡ true → any p xs ≡ false
  is_empty-keep p [] h = refl
  is_empty-keep p (x ∷ xs) h = ground (arith, is_empty-keep p xs)

-- Predicates by recursion, which compute to products and sums.
module _ {ℓ κ} {A : Type ℓ} where
  abbrev pub Every : (A → Type κ) → List A → Type κ
  Every P [] = Unit
  Every P (x ∷ xs) = P x × Every P xs

module _ {ℓ} {A : Type ℓ} where
  abbrev pub Some : (A → Type 0) → List A → Type 0
  Some P [] = ⊥
  Some P (x ∷ xs) = P x ⊎ Some P xs

module _ {ℓ} {A : Type ℓ} (P : A → Type 0) (p : A → Bool) (h : (x : A) → (p x ≡ true) ↔ P x) where
  pub any_iff : (xs : List A) → (any p xs ≡ true) ↔ Some P xs
  any_iff [] = (λ e. cc, λ e. absurd e)
  any_iff (x ∷ xs) = (λ e. ground (arith, h x, any_iff xs), λ e. ground (arith, h x, any_iff xs))

  pub any-eq-false_iff : (xs : List A) → (any p xs ≡ false) ↔ Every (λ x. ¬ P x) xs
  any-eq-false_iff [] = (λ e. tt, λ e. refl)
  any-eq-false_iff (x ∷ xs) =
      (λ e. ground (arith, h x, any-eq-false_iff xs), λ e. ground (arith, h x, any-eq-false_iff xs))

  pub all_iff : (xs : List A) → (all p xs ≡ true) ↔ Every P xs
  all_iff [] = (λ e. tt, λ e. refl)
  all_iff (x ∷ xs) = (λ e. ground (arith, h x, all_iff xs), λ e. ground (arith, h x, all_iff xs))

pub is_empty-map-keep {ℓ κ} :
    {A : Type ℓ} {B : Type κ} (f : A → B) (p : A → Bool) (xs : List A)
    → is_empty (map f (keep p xs)) ≡ not (any p xs)
is_empty-map-keep f p [] = refl
is_empty-map-keep f p (x ∷ xs) = ground (arith, is_empty-map-keep f p xs)

pub is_empty-append_iff {ℓ} :
    {A : Type ℓ} (xs ys : List A)
    → (is_empty (xs ++ ys) ≡ true) ↔ ((is_empty xs ≡ true) × (is_empty ys ≡ true))
is_empty-append_iff [] ys = (λ h. (refl, h), λ h. h.1)
is_empty-append_iff (x ∷ xs) ys = (λ h. cc, λ h. cc)

module _ {A : Type 0} (P : A → Type 0) where
  pub Every-permᴰ : {xs ys : List A} → Permᴰ xs ys → Every P xs → Every P ys
  Every-permᴰ Permᴰ.nil h = h
  Every-permᴰ (Permᴰ.cons e p) (h, hs) = (subst P e h, Every-permᴰ p hs)
  Every-permᴰ (Permᴰ.swap d e) (h, (k, hs)) = (subst P e k, (subst P d h, hs))
  Every-permᴰ (Permᴰ.trans p q) h = Every-permᴰ q (Every-permᴰ p h)
