-- ===== src/Research/Impact/Cycle/Walks.antt =====
-- What the search of research/impact/chain.py reports as a cycle is one.
use mathlib.Core.Path.{subst, sym}
use research_os.Common.{true, List, [], ◌∷◌, ◌≡◌, inl, inr, ◌↔◌, Every, Some, any_iff}
use research_os.Common.Text.{Text, text_eq, text_eq_iff}
use research_os.Research.Impact.Cycle.{is_in}

-- One of a list.
unfoldable pub Among : Text → List Text → Type 0
Among x xs = Some (λ y. x ≡ y) xs

pub is_in_iff : (xs : List Text) (x : Text) → (is_in xs x ≡ true) ↔ Among x xs
unfolding Among
is_in_iff xs x = any_iff (λ y. x ≡ y) (text_eq x) (text_eq_iff x) xs

module _ (neighbors : Text → List Text) where
  -- A walk of one edge or more.
  pub data Walk : Text → Text → Type 0 where
    edge : {u v : Text} → Among v (neighbors u) → Walk u v
    step : {u v w : Text} → Among v (neighbors u) → Walk v w → Walk u w

  pub Walk-concat : {u v w : Text} → Walk u v → Walk v w → Walk u w
  Walk-concat (edge e) p = step e p
  Walk-concat (step e q) p = step e (Walk-concat q p)

  -- Each node of the stack has an edge to the one pushed after it, and the last one to `u`.
  unfoldable pub IsStack : List Text → Text → Type 0
  IsStack [] u = Unit
  IsStack (x ∷ xs) u = Among u (neighbors x) × IsStack xs x

  -- A node of the stack has a walk to the node that is entered next.
  pub stack-Walk : (xs : List Text) (u x : Text) → IsStack xs u → Among x xs → Walk x u
  unfolding IsStack Among
  stack-Walk (y ∷ ys) u x (e, h) (inl same) = edge (subst (λ z. Among u (neighbors z)) (sym same) e)
  stack-Walk (y ∷ ys) u x (e, h) (inr below) = Walk-concat (stack-Walk ys y x h below) (edge e)
  stack-Walk [] u x h m = absurd m

  -- Every list of nodes in which the neighbours of each node come after it.
  unfoldable pub IsTopological : List Text → Type 0
  IsTopological [] = Unit
  IsTopological (x ∷ xs) = Every (λ v. Among v xs) (neighbors x) × IsTopological xs

  pub every-among :
      (xs vs : List Text) (v : Text) → Every (λ v. Among v xs) vs → Among v vs → Among v xs
  unfolding Among
  every-among xs (w ∷ ws) v (h, hs) (inl e) = subst (λ z. Among z xs) (sym e) h
  every-among xs (w ∷ ws) v (h, hs) (inr m) = every-among xs ws v hs m
  every-among xs [] v h m = absurd m

  topological-edge :
      (xs : List Text) (u v : Text)
      → IsTopological xs
      → Among u xs
      → Among v (neighbors u)
      → Among v xs
  unfolding IsTopological Among
  topological-edge (y ∷ ys) u v (near, h) (inl e) k =
      inr (every-among ys (neighbors y) v near (subst (λ z. Among v (neighbors z)) e k))
  topological-edge (y ∷ ys) u v (near, h) (inr m) k = inr (topological-edge ys u v h m k)
  topological-edge [] u v h m k = absurd m

  -- A walk from such a list stays in it.
  topological-Walk :
      (xs : List Text) (u v : Text) → IsTopological xs → Among u xs → Walk u v → Among v xs
  topological-Walk xs u v h m (edge e) = topological-edge xs u v h m e
  topological-Walk xs u v h m (step {v = w} e p) =
      topological-Walk xs w v h (topological-edge xs u w h m e) p

  -- No node of such a list has a walk back to itself.
  pub topological-acyclic : (xs : List Text) (x : Text) → IsTopological xs → Among x xs → ¬ Walk x x
  unfolding IsTopological Among
  topological-acyclic (y ∷ ys) x (near, h) (inl e) (edge k) =
      let m = every-among ys (neighbors y) x near (subst (λ z. Among x (neighbors z)) e k) in
      topological-acyclic ys x h m (edge k)
  topological-acyclic (y ∷ ys) x (near, h) (inl e) (step {v = w} k p) =
      let m = every-among ys (neighbors y) w near (subst (λ z. Among w (neighbors z)) e k) in
      topological-acyclic ys x h (topological-Walk ys w x h m p) (step k p)
  topological-acyclic (y ∷ ys) x (near, h) (inr m) p = topological-acyclic ys x h m p
  topological-acyclic [] x h m p = absurd m
