-- ===== src/Core/RateLimit.antt =====
-- core/rate_limit.py: attempts in a rolling window. A datetime is its instant in microseconds;
-- `t > now - window` is written `now < t + window`, so that nothing is cut off at 0.
pub mod Window
use research_os.Common.{
  ℕ, ◌+◌, ◌*◌, Bool, true, false, ◌&&◌, ◌||◌, ℤ, pos, negsuc, Option, none, some, Result, ok, err,
  List, [], ◌∷◌, length, keep, ltb, leb, ◌==◌, ◌>>=◌, ◌>>◌, if◌then◌else◌,
}
use research_os.Common.Text.{Text}
use research_os.Core.Enums.{ReasonCode, CoreError, core_input_error, allowed, rate_limit_denied}
use research_os.Core.Identity.{require_opaque_id}

pub record RateLimitProfile : Type 0 where
  pub profile_id : Text
  pub program_id : Text
  pub max_requests_per_window : ℕ
  pub window_seconds : ℕ

require_allowance : ℤ → Result CoreError ℕ
require_allowance (pos n) = ok n
require_allowance (negsuc n) = err core_input_error

-- `RateLimitProfile.__post_init__`
pub new_rate_limit_profile : Text → Text → ℤ → ℤ → Result CoreError RateLimitProfile
unfolding require_allowance
new_rate_limit_profile profile_id program_id max_requests window = do
  require_opaque_id profile_id
  require_opaque_id program_id
  m ← require_allowance max_requests
  w ← require_allowance window
  ok (record {
    profile_id = profile_id;
    program_id = program_id;
    max_requests_per_window = m;
    window_seconds = w;
  })

pub record RateLimitCheck : Type 0 where
  pub allowed_now : Bool
  pub reason_code : ReasonCode
  pub next_allowed_at : Option ℕ

-- `timedelta(seconds=n)`, in microseconds
abbrev pub seconds : ℕ → ℕ
seconds n = n * 1000000

abbrev pub in_window : ℕ → ℕ → ℕ → Bool
in_window window now t = ltb now (t + window) && leb t now

-- `min(recent)`, with the first element apart
pub oldest : ℕ → List ℕ → ℕ
oldest t [] = t
oldest t (u ∷ us) = oldest (if ltb u t then u else t) us

deny_until : Option ℕ → RateLimitCheck
deny_until next = record {
  allowed_now = false;
  reason_code = rate_limit_denied;
  next_allowed_at = next;
}

-- `min` of an empty list raises in Python. A window that is full holds an attempt, since the
-- allowance is not 0 there, so that case is not met.
next_after : ℕ → List ℕ → Option ℕ
unfolding oldest
next_after window [] = none
next_after window (t ∷ recent) = some (oldest t recent + window)

pub check_rate_limit : RateLimitProfile → List ℕ → ℕ → RateLimitCheck
unfolding deny_until next_after
check_rate_limit profile attempt_times now =
    let window = seconds profile.window_seconds in
    let recent = keep (in_window window now) attempt_times in
    if profile.max_requests_per_window == 0 || profile.window_seconds == 0
    then deny_until none
    else if leb profile.max_requests_per_window (length recent)
    then deny_until (next_after window recent)
    else record { allowed_now = true; reason_code = allowed; next_allowed_at = none }
