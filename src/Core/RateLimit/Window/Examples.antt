-- ===== src/Core/RateLimit/Window/Examples.antt =====
-- Two requests in a window of ten seconds.
use research_os.Common.{ℕ, ◌+◌, ◌≤◌, ◌<◌, true, some, List, [], ◌∷◌, ◌≡◌, ◌↔◌, refl, arith}
use research_os.Common.Text.{codes}
use research_os.Core.RateLimit.{RateLimitProfile, check_rate_limit, seconds}
use research_os.Core.RateLimit.Window.{
  History, recent_count, check_rate_limit-next_bounds, check_rate_limit-allowed_iff, History-Within,
}

abbrev profile : RateLimitProfile
profile = record {
  profile_id = codes "slow";
  program_id = codes "p";
  max_requests_per_window = 2;
  window_seconds = 10;
}

abbrev times : List ℕ
times = seconds 103 ∷ seconds 101 ∷ []

check_rate_limit-next_bounds_example :
    (seconds 105 < seconds 111) × (seconds 111 ≤ seconds 105 + seconds 10)
unfolding check_rate_limit
check_rate_limit-next_bounds_example =
    check_rate_limit-next_bounds profile times (seconds 105) (seconds 111) refl

check_rate_limit-allowed_iff_example :
    (((check_rate_limit profile times (seconds 105)).allowed_now ≡ true)
      ↔ ((0 < 10) × (recent_count profile times (seconds 105) < 2)))
    × (((t : ℕ) × ((check_rate_limit profile times (seconds 105)).next_allowed_at ≡ some t))
        ↔ ((0 < 10) × (0 < 2) × (2 ≤ recent_count profile times (seconds 105))))
check_rate_limit-allowed_iff_example = check_rate_limit-allowed_iff profile times (seconds 105)

two_requests : History profile times (seconds 103)
unfolding check_rate_limit
two_requests =
    History.attempt refl (
      History.wait (seconds 103) (omega arith) (History.attempt refl (History.start (seconds 101))))

History-Within_example : recent_count profile times (seconds 103) ≤ 2
History-Within_example = History-Within {profile = profile} two_requests
