-- ===== src/Resize.antt =====
-- `eel_calcresize` of src/core/e_util.h: how much memory a dynamic array asks for. It is compiled
-- with EEL_DEFENSIVE_REALLOC, as src/core/e_config.h defines it.
pub mod Bounds
use eel.Prelude.{ℕ, zero, suc, ◌+◌, ◌-◌, ◌*◌, ◌/◌, ltb, if◌then◌else◌}

-- The loop that grows `n` by half and `base`. The fuel is the distance to the request, which each
-- round brings down; sizes stay below 2 ^ 31, where `n * 3 >> 1` is `n * 3 / 2`.
unfoldable pub grow : ℕ → ℕ → ℕ → ℕ → ℕ
grow base requested zero n = n
grow base requested (suc fuel) n =
    let rest = grow base requested fuel (n * 3 / 2 + base) in if ltb n requested then rest else n

unfoldable pub calcresize : ℕ → ℕ → ℕ → ℕ
unfolding grow
calcresize base current requested =
    if ltb current requested
    then grow base requested requested (if ltb 0 current then current else base)
    else (if ltb (current / 2) requested
        then current
        else (if ltb (current / 2) base then base else current / 2))
