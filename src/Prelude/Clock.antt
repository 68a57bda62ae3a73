-- ===== src/Prelude/Clock.antt =====
-- Time is a number of nanoseconds, the resolution of the system's clocks.
use Prim.Native.Nat.{ℕ, ◌^◌}

abbrev pub second : ℕ
second = 10 ^ 9
