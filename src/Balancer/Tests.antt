-- ===== src/Balancer/Tests.antt =====
-- The theorem on picks at three connections, and the picker that `Build` makes.
use douyin_mall.Base.{◌≡◌, refl, true, false, List, [], ◌∷◌}
use douyin_mall.Balancer.{Conn, build, conn_of, pick, panics}
use douyin_mall.Balancer.Rotation.{Outcome, pick-Outcome}

abbrev conns : List Conn
conns =
    (record { weight = 5; current_weight = 0; available = true })
    ∷ (record { weight = 1; current_weight = 0; available = false })
    ∷ (record { weight = 2; current_weight = 0; available = true })
    ∷ []

pick-Outcome_example : Outcome conns (pick conns)
pick-Outcome_example = pick-Outcome conns

built_panics : (pick (build (3 ∷ 4 ∷ []))).0 ≡ panics
unfolding pick build conn_of
built_panics = refl
