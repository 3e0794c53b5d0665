-- ===== src/Research/Impact/Cycle/Finish.antt =====
-- The invariant of the search of research/impact/chain.py: the finished nodes are topological, the
-- stack comes back, and the fuel lasts while nodes are unvisited.
use mathlib.Core.Path.{subst, sym, ap, ◌∙◌}
use research_os.Common.{
  ℕ, zero, suc, ◌+◌, ◌≤◌, true, false, List, [], ◌∷◌, length, ◌≡◌, refl, ◌⊎◌, inl, inr, Every,
  Bool-cases, arith, if◌then◌else◌,
}
use research_os.Common.Text.{Text, text_eq_refl}
use research_os.Research.Impact.Cycle.{
  Search, is_in, Outcome, cycle, clear, out_of_fuel, enter, leave, remove, visit, scan, search_from,
}
use research_os.Research.Impact.Cycle.Walks.{
  Among, is_in_iff, Walk, IsStack, stack-Walk, IsTopological,
}

-- The nodes that were not visited.
pub unvisited : List Text → List Text → ℕ
unvisited [] seen = 0
unvisited (n ∷ ns) seen = (if is_in seen n then 0 else 1) + unvisited ns seen

unvisited-le : (ns seen : List Text) (u : Text) → unvisited ns (u ∷ seen) ≤ unvisited ns seen
unfolding unvisited
unvisited-le [] seen u = omega arith
unvisited-le (n ∷ ns) seen u = ground (arith, unvisited-le ns seen u)

unvisited-lt :
    (ns seen : List Text) (u : Text)
    → Among u ns
    → is_in seen u ≡ false
    → suc (unvisited ns (u ∷ seen)) ≤ unvisited ns seen
unfolding unvisited Among
unvisited-lt (n ∷ ns) seen u (inl e) h =
    subst (λ n. suc (unvisited (n ∷ ns) (u ∷ seen)) ≤ unvisited (n ∷ ns) seen) e
      (ground (arith, unvisited-le ns seen u, text_eq_refl u))
unvisited-lt (n ∷ ns) seen u (inr m) h =
    ground (arith, unvisited-lt ns seen u m h, unvisited-le ns seen u)
unvisited-lt [] seen u m h = absurd m

pub unvisited-length : (ns : List Text) → unvisited ns [] ≤ length ns
unfolding unvisited
unvisited-length [] = omega arith
unvisited-length (n ∷ ns) = omega (arith, unvisited-length ns)

module _ (go : Text → Search → Outcome) (v : Text) (vs : List Text) (s : Search) where
  abbrev go_on : Outcome → Outcome
  go_on (clear t) = scan go vs t
  go_on cycle = cycle
  go_on out_of_fuel = out_of_fuel

  scan-new : is_in s.visited v ≡ false → scan go (v ∷ vs) s ≡ go_on (go v s)
  unfolding scan
  scan-new new = ground arith

  scan-above : is_in s.visited v ≡ true → is_in s.rec_stack v ≡ true → scan go (v ∷ vs) s ≡ cycle
  unfolding scan
  scan-above seen above = ground arith

  scan-below :
      is_in s.visited v ≡ true → is_in s.rec_stack v ≡ false → scan go (v ∷ vs) s ≡ scan go vs s
  unfolding scan
  scan-below seen below = ground arith

module _ (neighbors : Text → List Text) (fuel : ℕ) where
  abbrev search_on : List Text → Outcome → Outcome
  search_on us (clear t) = search_from neighbors fuel us t
  search_on us cycle = cycle
  search_on us out_of_fuel = out_of_fuel

  search_from-new :
      (u : Text) (us : List Text) (s : Search)
      → is_in s.visited u ≡ false
      → search_from neighbors fuel (u ∷ us) s ≡ search_on us (visit neighbors fuel u s)
  unfolding search_from
  search_from-new u us s new = ground arith

  search_from-seen :
      (u : Text) (us : List Text) (s : Search)
      → is_in s.visited u ≡ true
      → search_from neighbors fuel (u ∷ us) s ≡ search_from neighbors fuel us s
  unfolding search_from
  search_from-seen u us s seen = ground arith

module _ (neighbors : Text → List Text) (nodes : List Text) where
  -- Every visited node is finished or on the stack, and the finished ones are topological.
  pub record Finished (done : List Text) (s : Search) : Type 0 where
    pub topological : IsTopological neighbors done
    pub split : (x : Text) → Among x s.visited → Among x done ⊎ Among x s.rec_stack

  -- What a search from `s` that goes on in `t` keeps, where the nodes `vs` are finished.
  pub record Continues (s : Search) (done vs : List Text) (t : Search) : Type 0 where
    pub stack : t.rec_stack ≡ s.rec_stack
    pub fewer : unvisited nodes t.visited ≤ unvisited nodes s.visited
    pub done' : List Text
    pub finished : Finished done' t
    pub grows : (x : Text) → Among x done → Among x done'
    pub all : Every (λ v. Among v done') vs

  unfoldable pub Post : Search → List Text → List Text → Outcome → Type 0
  Post s done vs cycle = (x : Text) × Walk neighbors x x
  Post s done vs out_of_fuel = ⊥
  Post s done vs (clear t) = Continues s done vs t

  -- A call that visits a node of the graph above the stack, with enough fuel.
  abbrev Visits : ℕ → List Text → (Text → Search → Outcome) → Type 0
  Visits k rec go =
      (v : Text) (s : Search) (done : List Text)
      → s.rec_stack ≡ rec
      → unvisited nodes s.visited ≤ k
      → is_in s.visited v ≡ false
      → Among v nodes
      → IsStack neighbors rec v
      → Finished done s
      → Post s done (v ∷ []) (go v s)

  after :
      (s t : Search) (done : List Text) (v : Text) (vs : List Text) (o : Outcome)
      → (c : Continues s done (v ∷ []) t) → Post t c.done' vs o
      → Post s done (v ∷ vs) o
  unfolding Post
  after s t done v vs cycle c p = p
  after s t done v vs out_of_fuel c p = p
  after s t done v vs (clear r) c p = record {
    stack = p.stack ∙ c.stack;
    fewer = omega (arith, p.fewer, c.fewer);
    done' = p.done';
    finished = p.finished;
    grows = λ x m. p.grows x (c.grows x m);
    all = (p.grows v c.all.0, p.all);
  }

  scan_lem :
      (k : ℕ) (rec : List Text) (go : Text → Search → Outcome)
      → Visits k rec go
      → (vs : List Text) (s : Search) (done : List Text) → s.rec_stack ≡ rec
      → unvisited nodes s.visited ≤ k
      → Every (λ v. Among v nodes × IsStack neighbors rec v) vs
      → Finished done s
      → Post s done vs (scan go vs s)
  unfolding Post scan
  scan_lem k rec go h [] s done e f near fin = record {
    stack = refl;
    fewer = omega arith;
    done' = done;
    finished = fin;
    grows = λ x m. m;
    all = tt;
  }
  scan_lem k rec go h (v ∷ vs) s done e f ((node, stacked), near) fin =
      let rest =
        λ (t : Search) (d : List Text) (e : t.rec_stack ≡ rec) (f : unvisited nodes t.visited ≤ k)
            (fin : Finished d t).
          scan_lem k rec go h vs t d e f near fin in
      elim (Bool-cases (is_in s.visited v)) [
        | inl seen ↦ elim (Bool-cases (is_in s.rec_stack v)) [
          | inl above ↦ back (scan-above go v vs s seen above) (
            v,
            stack-Walk neighbors rec v v stacked
                (subst (Among v) e ((is_in_iff s.rec_stack v).0 above)),
          )
          | inr below ↦
              back (scan-below go v vs s seen below)
                (after s s done v vs (scan go vs s) (stay seen below) (rest s done e f fin))
        ]
        | inr new ↦
            back (scan-new go v vs s new) (next rest (go v s) (h v s done e f new node stacked fin))
      ]
    where
      back :
          {o : Outcome}
          → scan go (v ∷ vs) s ≡ o
          → Post s done (v ∷ vs) o
          → Post s done (v ∷ vs) (scan go (v ∷ vs) s)
      back same p = subst (Post s done (v ∷ vs)) (sym same) p

      next :
          ((t : Search) (d : List Text)
            → t.rec_stack ≡ rec
            → unvisited nodes t.visited ≤ k
            → Finished d t
            → Post t d vs (scan go vs t))
          → (o : Outcome) → Post s done (v ∷ []) o
          → Post s done (v ∷ vs) (go_on go v vs s o)
      next rest cycle p = p
      next rest out_of_fuel p = p
      next rest (clear t) p =
          after s t done v vs (scan go vs t) p
            (rest t p.done' (p.stack ∙ e) (omega (arith, p.fewer, f)) p.finished)

      finished_of : Among v done ⊎ Among v s.rec_stack → is_in s.rec_stack v ≡ false → Among v done
      finished_of (inl m) below = m
      finished_of (inr m) below = absurd (cc ((is_in_iff s.rec_stack v).1 m, below))

      stay : is_in s.visited v ≡ true → is_in s.rec_stack v ≡ false → Continues s done (v ∷ []) s
      stay seen below = record {
        stack = refl;
        fewer = omega arith;
        done' = done;
        finished = fin;
        grows = λ x m. m;
        all = (finished_of (fin.split v ((is_in_iff s.visited v).0 seen)) below, tt);
      }

  enter-Finished :
      (u : Text) (s : Search) (done : List Text) → Finished done s → Finished done (enter u s)
  unfolding Among
  enter-Finished u s done fin = record {
    topological = fin.topological;
    split = λ x m. elim m [
      | inl e ↦ inr (inl e)
      | inr m ↦ elim (fin.split x m) [ inl d ↦ inl d | inr r ↦ inr (inr r) ]
    ];
  }

  leave-Finished :
      (u : Text) (rec done : List Text) (t : Search)
      → t.rec_stack ≡ u ∷ rec
      → Every (λ v. Among v done) (neighbors u)
      → Finished done t
      → Finished (u ∷ done) (record t { rec_stack = rec })
  unfolding Among IsTopological
  leave-Finished u rec done t e all fin = record {
    topological = (all, fin.topological);
    split = λ x m. elim (fin.split x m) [
      | inl d ↦ inl (inr d)
      | inr r ↦ elim (subst (Among x) e r) [ inl e ↦ inl (inl e) | inr r ↦ inr r ]
    ];
  }

  remove-head :
      (u : Text) (t : Search) (rec : List Text) → t.rec_stack ≡ u ∷ rec → remove t.rec_stack u ≡ rec
  unfolding remove
  remove-head u t rec e = ap (λ l. remove l u) e ∙ ground (arith, text_eq_refl u)

  leave_lem :
      (u : Text) (s : Search) (done : List Text) (o : Outcome)
      → Among u nodes
      → Post (enter u s) done (neighbors u) o
      → Post s done (u ∷ []) (leave u o)
  unfolding Post leave Among
  leave_lem u s done cycle node p = p
  leave_lem u s done out_of_fuel node p = p
  leave_lem u s done (clear t) node p =
      let same = remove-head u t s.rec_stack p.stack in
      record {
        stack = same;
        fewer = omega (arith, p.fewer, unvisited-le nodes s.visited u);
        done' = u ∷ p.done';
        finished =
            subst (λ r. Finished (u ∷ p.done') (record t { rec_stack = r })) (sym same)
              (leave-Finished u s.rec_stack p.done' t p.stack p.all p.finished);
        grows = λ x m. inr (p.grows x m);
        all = (inl refl, tt);
      }

  stacked_neighbors :
      (rec : List Text) (u : Text) (vs : List Text)
      → IsStack neighbors rec u
      → Every (λ v. Among v nodes) vs
      → Every (λ v. Among v (neighbors u)) vs
      → Every (λ v. Among v nodes × IsStack neighbors (u ∷ rec) v) vs
  unfolding IsStack
  stacked_neighbors rec u [] h n k = tt
  stacked_neighbors rec u (v ∷ vs) h (n, ns) (k, ks) =
      ((n, (k, h)), stacked_neighbors rec u vs h ns ks)

  every_of : {P : Text → Type 0} (vs : List Text) → ((v : Text) → Among v vs → P v) → Every P vs
  unfolding Among
  every_of [] h = tt
  every_of (v ∷ vs) h = (h v (inl refl), every_of vs (λ w m. h w (inr m)))

  every_among_self : (vs : List Text) → Every (λ v. Among v vs) vs
  every_among_self vs = every_of vs (λ v m. m)

  -- The neighbours of a node are nodes.
  module _ (inside : (u : Text) → Every (λ v. Among v nodes) (neighbors u)) where
    visit_lem : (fuel : ℕ) (rec : List Text) → Visits fuel rec (visit neighbors fuel)
    unfolding visit Post
    visit_lem zero rec u s done e f new node stacked fin =
        absurd (omega (arith, f, unvisited-lt nodes s.visited u node new))
    visit_lem (suc fuel) rec u s done e f new node stacked fin =
        leave_lem u s done (scan (visit neighbors fuel) (neighbors u) (enter u s)) node (
          scan_lem fuel (u ∷ rec) (visit neighbors fuel) (visit_lem fuel (u ∷ rec)) (neighbors u)
            (enter u s) done (ap (λ r. u ∷ r) e)
            (omega (arith, f, unvisited-lt nodes s.visited u node new))
            (stacked_neighbors rec u (neighbors u) stacked (inside u)
              (every_among_self (neighbors u)))
            (enter-Finished u s done fin))

    empty-IsStack : (u : Text) → IsStack neighbors [] u
    unfolding IsStack
    empty-IsStack u = tt

    nothing : (u : Text) → ¬ Among u []
    unfolding Among
    nothing u m = absurd m

    stays :
        (s : Search) (done vs : List Text)
        → Finished done s
        → Every (λ v. Among v done) vs
        → Continues s done vs s
    stays s done vs fin all = record {
      stack = refl;
      fewer = omega arith;
      done' = done;
      finished = fin;
      grows = λ x m. m;
      all = all;
    }

    pub search_lem :
        (fuel : ℕ) (us : List Text) (s : Search) (done : List Text)
        → s.rec_stack ≡ []
        → unvisited nodes s.visited ≤ fuel
        → Every (λ u. Among u nodes) us
        → Finished done s
        → Post s done us (search_from neighbors fuel us s)
    unfolding Post search_from stays
    search_lem fuel [] s done e f near fin = stays s done [] fin tt
    search_lem fuel (u ∷ us) s done e f (node, near) fin =
        let rest =
          λ (t : Search) (d : List Text) (e : t.rec_stack ≡ [])
              (f : unvisited nodes t.visited ≤ fuel) (fin : Finished d t).
            search_lem fuel us t d e f near fin in
        elim (Bool-cases (is_in s.visited u)) [
          | inl seen ↦
              subst (Post s done (u ∷ us)) (sym (search_from-seen neighbors fuel u us s seen)) (
                after s s done u us (search_from neighbors fuel us s)
                  (stays s done (u ∷ []) fin
                    (finished_of seen (fin.split u ((is_in_iff s.visited u).0 seen)), tt))
                  (rest s done e f fin))
          | inr new ↦
              subst (Post s done (u ∷ us)) (sym (search_from-new neighbors fuel u us s new)) (
                next rest (visit neighbors fuel u s)
                  (visit_lem fuel [] u s done e f new node (empty-IsStack u) fin))
        ]
      where
        finished_of : is_in s.visited u ≡ true → Among u done ⊎ Among u s.rec_stack → Among u done
        finished_of seen (inl m) = m
        finished_of seen (inr m) = absurd (nothing u (subst (Among u) e m))

        next :
            ((t : Search) (d : List Text)
              → t.rec_stack ≡ []
              → unvisited nodes t.visited ≤ fuel
              → Finished d t
              → Post t d us (search_from neighbors fuel us t))
            → (o : Outcome) → Post s done (u ∷ []) o
            → Post s done (u ∷ us) (search_on neighbors fuel us o)
        next rest cycle p = p
        next rest out_of_fuel p = p
        next rest (clear t) p =
            after s t done u us (search_from neighbors fuel us t) p
              (rest t p.done' (p.stack ∙ e) (omega (arith, p.fewer, f)) p.finished)
