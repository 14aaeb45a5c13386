-- ===== src/Calendar.antt =====
-- The dates of dayjs and of JavaScript's Date: third-party code, so a parameter of the model.
use space_next_door_core_api.Base.{ℕ, Bool, not}
use space_next_door_core_api.Base.Int.{ℤ}

-- `diff_day later earlier` is `later.diff(earlier, 'day')`, and so for months. A record of
-- operations without laws: what a theorem needs of them is a hypothesis of it.
pub record Calendar : Type 1 where
  pub Date : Type 0
  pub diff_day : Date → Date → ℤ
  pub diff_month : Date → Date → ℤ
  pub add_day : Date → ℤ → Date
  pub add_month : Date → ℕ → Date
  pub is_before : Date → Date → Bool
  pub is_after : Date → Date → Bool
  -- `a.isBefore(b, 'day')`.
  pub is_before_day : Date → Date → Bool

-- The plugin's `isSameOrAfter`.
abbrev pub is_same_or_after : (cal : Calendar) → cal.Date → cal.Date → Bool
is_same_or_after cal a b = not (cal.is_before a b)
