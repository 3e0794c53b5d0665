-- ===== src/Core/ScopeCompiler/Matching/Examples.antt =====
-- A subdomain under a wildcard rule, and a page under an admin prefix.
use research_os.Common.{true, none, some, ◌++◌, ◌≡◌, ◌↔◌}
use research_os.Common.Text.{Text, codes}
use research_os.Core.ScopeCompiler.{host_matches, path_prefix_matches}
use research_os.Core.ScopeCompiler.Matching.{
  IsUnder, host_matches-wildcard_iff, path_prefix_matches_iff,
}

host_matches-wildcard_iff_example :
    (host_matches (some (codes "api.shop.test")) none (some (codes "*." ++ codes "shop.test"))
      ≡ true)
    ↔ ((label : Text) × (codes "api.shop.test" ≡ label ++ (codes "." ++ codes "shop.test")))
host_matches-wildcard_iff_example =
    host_matches-wildcard_iff (codes "api.shop.test") (codes "shop.test")

path_prefix_matches_iff_example :
    (path_prefix_matches (codes "/administrator") (codes "/admin") ≡ true)
    ↔ IsUnder (codes "/administrator") (codes "/admin")
path_prefix_matches_iff_example = path_prefix_matches_iff (codes "/administrator") (codes "/admin")
