-- ===== src/Go/Time.antt =====
-- time.Time and time.Duration: nanoseconds, a duration within int64. `Sub` saturates and `+` on
-- durations wraps around, as in Go.
use image_registry_operator.Prelude.{ℕ, ◌+◌, ◌-◌, ◌*◌, ◌%◌, ◌^◌, ◌≡◌, Bool, arith, if◌then◌else◌}
use image_registry_operator.Prelude.Int.{
  ℤ, pos, negsuc, pos_part, neg_part, sub_ℕ, ◌+ℤ◌, ◌-ℤ◌, ◌≤ℤ◌, ltb_ℤ, +ℤ_parts,
}

abbrev pub Time : Type 0
Time = ℤ

abbrev pub Duration : Type 0
Duration = ℤ

abbrev pub max_int64 : ℤ
max_int64 = pos (2 ^ 63 - 1)

abbrev pub min_int64 : ℤ
min_int64 = negsuc (2 ^ 63 - 1)

-- The int64 with the bits of an integer.
unfoldable pub wrap64 : ℤ → ℤ
wrap64 a = sub_ℕ ((pos_part a + 2 ^ 63 + (2 ^ 64 - neg_part a % 2 ^ 64)) % 2 ^ 64) (2 ^ 63)

abbrev pub InInt64 : ℤ → Type 0
InInt64 a = (a ≤ℤ max_int64) × (min_int64 ≤ℤ a)

pub wrap64-InInt64 : (a : ℤ) → InInt64 (wrap64 a)
unfolding wrap64
wrap64-InInt64 a = ground arith

pub wrap64_lem : (a : ℤ) → InInt64 a → wrap64 a ≡ a
unfolding wrap64
wrap64_lem a h = ground arith

abbrev pub second : Duration
second = pos 1_000_000_000

abbrev pub seconds : ℕ → Duration
seconds n = pos (n * 1_000_000_000)

-- `t.Sub(u)`.
unfoldable pub sub_time : Time → Time → Duration
sub_time t u =
    let d = t -ℤ u in
    if ltb_ℤ max_int64 d then max_int64 else if ltb_ℤ d min_int64 then min_int64 else d

-- `t.Add(d)`.
abbrev pub add_time : Time → Duration → Time
add_time t d = t +ℤ d

-- `t.After(u)`.
abbrev pub after : Time → Time → Bool
after t u = ltb_ℤ u t

-- `d + e` on durations.
unfoldable pub add_duration : Duration → Duration → Duration
add_duration d e = wrap64 (d +ℤ e)

-- A difference of times within int64 is exact.
pub sub_time_exact :
    (t u : Time) → t -ℤ u ≤ℤ max_int64 → min_int64 ≤ℤ t -ℤ u → sub_time t u ≡ t -ℤ u
unfolding sub_time
sub_time_exact t u h k = ground arith

-- A difference and a further delay that stay within int64 are exact.
pub delay_exact :
    (t now : Time) (d : Duration)
    → pos 0 ≤ℤ t -ℤ now
    → pos 0 ≤ℤ d
    → t -ℤ now +ℤ d ≤ℤ max_int64
    → add_duration (sub_time t now) d ≡ t -ℤ now +ℤ d
unfolding add_duration
delay_exact t now d low more high =
    rw (sub_time_exact t now (omega (arith, +ℤ_parts (t -ℤ now) d)) (omega arith))
      (wrap64_lem (t -ℤ now +ℤ d) (omega (arith, +ℤ_parts (t -ℤ now) d)))
