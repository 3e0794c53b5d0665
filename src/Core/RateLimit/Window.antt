-- ===== src/Core/RateLimit/Window.antt =====
-- The window is never overrun, and the hint names a later instant (core/rate_limit.py).
mod Examples
use research_os.Common.{
  ℕ, suc, ◌+◌, ◌≤◌, ◌<◌, Bool, true, false, ◌&&◌, Option, none, some, List, [], ◌∷◌, length, keep,
  Every, ◌≡◌, refl, ◌↔◌, arith, ltb, leb, Bool-cases, inl, inr, if◌then◌else◌,
}
use research_os.Core.RateLimit.{
  RateLimitProfile, check_rate_limit, seconds, in_window, oldest, next_after,
}

-- The attempts that the window ending at `now` holds.
abbrev pub recent_count : RateLimitProfile → List ℕ → ℕ → ℕ
recent_count profile times now =
    length (keep (in_window (seconds profile.window_seconds) now) times)

oldest-IsRecent :
    (window now t : ℕ) (ts : List ℕ)
    → in_window window now t ≡ true
    → Every (λ u. in_window window now u ≡ true) ts
    → in_window window now (oldest t ts) ≡ true
unfolding oldest
oldest-IsRecent window now t [] h k = h
oldest-IsRecent window now t (u ∷ us) h k =
    oldest-IsRecent window now (if ltb u t then u else t) us (ground (arith, k.0)) k.1

Every-keep : (p : ℕ → Bool) (xs : List ℕ) → Every (λ x. p x ≡ true) (keep p xs)
Every-keep p [] = tt
Every-keep p (x ∷ xs) = elim (Bool-cases (p x)) [
  | inl e ↦ rw e (e, Every-keep p xs)
  | inr e ↦ rw e (Every-keep p xs)
]

next_after_bounds :
    (window now t : ℕ) (recent : List ℕ)
    → Every (λ u. in_window window now u ≡ true) recent
    → next_after window recent ≡ some t
    → (now < t) × (t ≤ now + window)
unfolding next_after
next_after_bounds window now t [] h e = cc
next_after_bounds window now t (u ∷ us) h e =
    let r = oldest-IsRecent window now u us h.0 h.1 in ground (arith, r)

-- A denial that names an instant names one that lies after now, by the length of the window at most.
pub check_rate_limit-next_bounds :
    (profile : RateLimitProfile) (times : List ℕ) (now t : ℕ)
    → (check_rate_limit profile times now).next_allowed_at ≡ some t
    → (now < t) × (t ≤ now + seconds profile.window_seconds)
unfolding check_rate_limit
check_rate_limit-next_bounds profile times now t h =
    let window = seconds profile.window_seconds in
    let recent = keep (in_window window now) times in
    next_after_bounds window now t recent (Every-keep (in_window window now) times) (ground arith)

next_after-some :
    (window n : ℕ) (recent : List ℕ)
    → 0 < n
    → n ≤ length recent
    → (t : ℕ) × (next_after window recent ≡ some t)
unfolding next_after
next_after-some window n [] p h = absurd (omega arith)
next_after-some window n (u ∷ us) p h = (oldest u us + window, refl)

-- A request is allowed exactly if the window is positive and holds fewer attempts than the
-- allowance. A denial names an instant exactly if the allowance and the window are positive, and
-- the window holds as many attempts as the allowance or more.
pub check_rate_limit-allowed_iff :
    (profile : RateLimitProfile) (times : List ℕ) (now : ℕ)
    → (((check_rate_limit profile times now).allowed_now ≡ true) ↔ (
        (0 < profile.window_seconds)
        × (recent_count profile times now < profile.max_requests_per_window)))
      × (((t : ℕ) × ((check_rate_limit profile times now).next_allowed_at ≡ some t)) ↔ (
          (0 < profile.window_seconds)
          × (0 < profile.max_requests_per_window)
          × (profile.max_requests_per_window ≤ recent_count profile times now)))
unfolding check_rate_limit
check_rate_limit-allowed_iff profile times now =
    let window = seconds profile.window_seconds in
    let recent = keep (in_window window now) times in
    (
      (λ h. ground arith, λ h. ground arith),
      (
        λ (t, h). ground arith,
        λ h.
            let (t, e) = next_after-some window profile.max_requests_per_window recent h.1 h.2 in
            (t, ground (arith, e)),
      ),
    )

-- The histories of a caller that records an attempt only when the check allows it; the clock may
-- move on at any time.
pub data History (profile : RateLimitProfile) : List ℕ → ℕ → Type 0 where
  start : (now : ℕ) → History profile [] now
  wait :
      {times : List ℕ} {now : ℕ} (later : ℕ)
      → now ≤ later
      → History profile times now
      → History profile times later
  attempt :
      {times : List ℕ} {now : ℕ}
      → (check_rate_limit profile times now).allowed_now ≡ true
      → History profile times now
      → History profile (now ∷ times) now

Every-le :
    (times : List ℕ) {now later : ℕ}
    → now ≤ later
    → Every (λ t. t ≤ now) times
    → Every (λ t. t ≤ later) times
Every-le [] h past = tt
Every-le (t ∷ times) h past = (ground (arith, past.0), Every-le times h past.1)

History-past :
    {profile : RateLimitProfile} {times : List ℕ} {now : ℕ}
    → History profile times now
    → Every (λ t. t ≤ now) times
History-past (start now) = tt
History-past (wait {times = times} later h past) = Every-le times h (History-past past)
History-past (attempt ok past) = (omega arith, History-past past)

-- The window loses attempts while time passes.
recent_count_mono :
    (profile : RateLimitProfile) (times : List ℕ) (now later : ℕ)
    → now ≤ later
    → Every (λ t. t ≤ now) times
    → recent_count profile times later ≤ recent_count profile times now
recent_count_mono profile [] now later h past = omega arith
recent_count_mono profile (t ∷ times) now later h past =
    ground (arith, recent_count_mono profile times now later h past.1, past.0)

-- However a caller interleaves waiting with attempts that the check allowed, no window that ends at
-- the present ever holds more attempts than the profile allows.
pub History-Within :
    {profile : RateLimitProfile} {times : List ℕ} {now : ℕ}
    → History profile times now
    → recent_count profile times now ≤ profile.max_requests_per_window
History-Within (start now) = omega arith
History-Within {profile} (wait {times = times} {now = now} later h past) =
    omega
      (arith, History-Within past, recent_count_mono profile times now later h (History-past past))
History-Within {profile} (attempt {times = times} {now = now} allowed past) =
    let few = ((check_rate_limit-allowed_iff profile times now).0.0 allowed).1 in
    ground (arith, few)
