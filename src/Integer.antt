-- ===== src/Integer.antt =====
-- An `int`.
use linux_system_monitoring.Base.{ℕ, zero, suc, ◌-◌, ◌%◌, ◌^◌, ltb, if◌then◌else◌}

pub data ℤ : Type 0 where
  pos : ℕ → ℤ
  negsuc : ℕ → ℤ

-- `n - 1`
abbrev pub pred : ℤ → ℤ
pred (pos zero) = negsuc 0
pred (pos (suc n)) = pos n
pred (negsuc n) = negsuc (suc n)

-- What an `int` of 32 bits holds of a number that does not fit: the residue, in two's complement.
abbrev pub to_int : ℕ → ℤ
to_int n = let r = n % 2 ^ 32 in if ltb r (2 ^ 31) then pos r else negsuc (2 ^ 32 - 1 - r)
