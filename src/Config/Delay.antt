-- ===== src/Config/Delay.antt =====
-- The playout delay of src/Configuration.cpp.
use janus_ftl_plugin.Prelude.{ℕ, ◌/◌, ◌^◌, ◌≤◌, ◌<◌, ◌≡◌, ◌⊎◌, none, some, arith}
use janus_ftl_plugin.Config.{new_playout_delay}

-- A delay is accepted exactly if its ends are in order and at most 40,950 ms, and then it is the
-- numbers of whole 10 ms, which fit the 12 bits of the header extension and are in order.
new_playout_delay-bounded :
    (min_ms max_ms : ℕ)
    → ((min_ms ≤ max_ms)
        × (max_ms ≤ 40950)
        × (new_playout_delay min_ms max_ms ≡ some (min_ms / 10, max_ms / 10))
        × (min_ms / 10 ≤ max_ms / 10)
        × (max_ms / 10 < 2 ^ 12))
      ⊎ ((new_playout_delay min_ms max_ms ≡ none) × ((max_ms < min_ms) ⊎ (40950 < max_ms)))
unfolding new_playout_delay
new_playout_delay-bounded min_ms max_ms = ground arith
