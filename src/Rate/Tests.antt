-- ===== src/Rate/Tests.antt =====
-- The results of Rate on a few attempts.
use quetzal.Prelude.{[], ◌∷◌, ◌≤◌, refl, arith, none, ◌≡◌}
use quetzal.Rate.{rate_allow}
use quetzal.Rate.Limiter.{Limiter, allow}
use quetzal.Rate.Shared.{Agree, allow-rate_allow}
use quetzal.Rate.Window.{allowed_among, allowed_among-le}

allowed_among-le_example :
    (allowed_among "ip" 2 60000 (5000 ∷ 6000 ∷ 7000 ∷ []) [] ≤ 2)
    × (1 ≤ allowed_among "ip" 2 60000 (5000 ∷ 6000 ∷ 7000 ∷ []) [])
allowed_among-le_example =
    allowed_among-le "ip" 2 60000 5000 (6000 ∷ 7000 ∷ []) [] refl (omega arith)
      (omega arith, (omega arith, tt))

abbrev two_tries : Limiter
two_tries = record { hits = []; limit = 2; window = 60000 }

allow-rate_allow_example :
    ((allow "ip" 5000 none two_tries).1 ≡ (rate_allow "ip" 2 60000 5000 []).1)
    × Agree "ip" (allow "ip" 5000 none two_tries).0 (rate_allow "ip" 2 60000 5000 []).0
allow-rate_allow_example = allow-rate_allow "ip" 5000 two_tries [] (omega arith) refl refl
