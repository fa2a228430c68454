-- ===== src/Resize/Bounds.antt =====
-- What the callers of `eel_calcresize` rely on: room for the request, and a bound on the answer.
use eel.Prelude.{ℕ, zero, suc, ◌+◌, ◌*◌, ◌/◌, ◌^◌, ◌≤◌, ◌<◌, arith}
use eel.Resize.{grow, calcresize}

grow_covers :
    (base requested fuel n : ℕ)
    → 0 < base
    → requested ≤ n + fuel
    → requested ≤ grow base requested fuel n
unfolding grow
grow_covers base requested zero n b h = omega arith
grow_covers base requested (suc fuel) n b h =
    ground (arith, grow_covers base requested fuel (n * 3 / 2 + base))

grow_upper :
    (base requested fuel n : ℕ)
    → n ≤ requested * 3 / 2 + base
    → grow base requested fuel n ≤ requested * 3 / 2 + base
unfolding grow
grow_upper base requested zero n h = h
grow_upper base requested (suc fuel) n h =
    ground (arith, grow_upper base requested fuel (n * 3 / 2 + base))

-- With a positive base the size that `eel_calcresize` returns is at least the request, whether it
-- grows or shrinks the array: the growing loop ends with enough room.
pub calcresize_covers :
    (base current requested : ℕ) → 0 < base → requested ≤ calcresize base current requested
unfolding calcresize
calcresize_covers base current requested b =
    ground (
      arith,
      grow_covers base requested requested current,
      grow_covers base requested requested base,
    )

-- A request of less than 2 ^ 29 items on an array of less than 2 ^ 29 items, with a base of at most
-- 2 ^ 16, is answered with less than 2 ^ 30.
pub calcresize_fits :
    (base current requested : ℕ)
    → base ≤ 2 ^ 16
    → current < 2 ^ 29
    → requested < 2 ^ 29
    → calcresize base current requested < 2 ^ 30
unfolding calcresize
calcresize_fits base current requested b c r =
    ground
      (arith, grow_upper base requested requested current, grow_upper base requested requested base)
