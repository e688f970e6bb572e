-- ===== src/Storage/Ttl.antt =====
-- storage/ttl.py. Times are integers that count ticks, with `second` of them to a second; the
-- source counts seconds in floats, whose rounding is not modelled.
pub mod Deadlines
use krafton_week.Prelude.{
  ℕ, ◌+◌, ◌-◌, ◌*◌, ◌/◌, suc, String, ◌≡◌, refl, Bool, true, false, not, ◌||◌, Option, none, some,
  ◌==◌, is_none, ℤ, pos, negsuc, pos_part, sub_ℕ, ◌+ℤ◌, ◌*ℤ◌, ltb_ℤ, leb_ℤ, if◌then◌else◌,
}
use krafton_week.Text.{upper}
use krafton_week.Effects.{Result, ok, err, bind_result}
use krafton_week.Errors.{Error, value_error}

-- Microseconds.
unfoldable pub second : ℕ
second = 1000000

abbrev pub is_expire_option : String → Bool
is_expire_option s = s == "NX" || s == "XX" || s == "GT" || s == "LT"

unfoldable pub normalize_expire_option : Option String → Result Error (Option String)
normalize_expire_option none = ok none
normalize_expire_option (some option) =
    if is_expire_option (upper option)
    then ok (some (upper option))
    else err (value_error "unsupported EXPIRE option")

unfoldable pub compute_deadline : ℤ → ℤ → ℤ
compute_deadline now (pos n) = now +ℤ pos (n * second)
compute_deadline now (negsuc n) = now +ℤ sub_ℕ 0 (suc n * second)

abbrev pub is_expired : ℤ → ℤ → Bool
is_expired deadline now = leb_ℤ deadline now

-- A deadline to compare with: `PERSISTENT_TTL` is infinite.
pub data Comparable : Type 0 where
  finite : ℤ → Comparable
  persistent : Comparable

abbrev comparable_deadline : Option ℤ → Comparable
comparable_deadline none = persistent
comparable_deadline (some d) = finite d

abbrev pub later : ℤ → Comparable → Bool
later d (finite e) = ltb_ℤ e d
later d persistent = false

abbrev sooner : ℤ → Comparable → Bool
sooner d (finite e) = ltb_ℤ d e
sooner d persistent = true

-- The rules for a normalized option.
abbrev applies : Option String → Option ℤ → ℤ → Bool
applies none current new = true
applies (some option) current new =
    if option == "NX"
    then is_none current
    else if option == "XX"
    then not (is_none current)
    else if option == "GT"
    then later new (comparable_deadline current)
    else sooner new (comparable_deadline current)

unfoldable pub should_apply_expiry : Option String → Option ℤ → ℤ → Result Error Bool
unfolding normalize_expire_option
should_apply_expiry option current new =
    bind_result (normalize_expire_option option) (λ o. ok (applies o current new))

-- `math.ceil` of a number of ticks, in seconds.
ceil_seconds : ℤ → ℤ
ceil_seconds (pos n) = pos ((n + (second - 1)) / second)
ceil_seconds (negsuc n) = sub_ℕ 0 (suc n / second)

-- `max(0, math.ceil(deadline - now))`
unfoldable pub remaining_seconds : ℤ → ℤ
unfolding ceil_seconds
remaining_seconds d = pos (pos_part (ceil_seconds d))
