-- ===== src/Pacct/Compressed.antt =====
-- The two readings of a compressed number.
use linux_system_monitoring.Base.{
  ℕ, zero, suc, ◌+◌, ◌*◌, ◌/◌, ◌%◌, ◌^◌, ◌≡◌, ◌<◌, refl, ap, ◌∙◌, arith, ltb, Bool-cases, inl, inr,
  Option, none, some, if◌then◌else◌, ◌>>=◌,
}
use linux_system_monitoring.Pacct.Values.{comp_to_double, time_comp_ticks, time_comp_to_double}

-- The exponent and the mantissa of a compressed number.
abbrev pub compressed : ℕ → ℕ → ℕ
compressed exponent mantissa = exponent * 2 ^ 13 + mantissa

-- The bit fields come out again.
values :
    (e m : ℕ)
    → e < 8
    → m < 2 ^ 13
    → (comp_to_double (compressed e m) ≡ m * 2 ^ e)
      × (time_comp_ticks (compressed e m)
          ≡ (if ltb (m * 2 ^ (e * 3)) (2 ^ 31) then some (m * 2 ^ (e * 3)) else none))
unfolding comp_to_double time_comp_ticks
values e m h k = (rw (mantissa, exponent), rw (mantissa, exponent))
  where
    exponent : compressed e m / 2 ^ 13 % 8 ≡ e
    exponent = omega arith

    mantissa : compressed e m % 2 ^ 13 ≡ m
    mantissa = omega arith

-- What both functions make of a compressed number.
pub record Reads {F : Type 0} (divide : ℕ → F) (e m : ℕ) : Type 0 where
  pub two : comp_to_double (compressed e m) ≡ m * 2 ^ e
  pub small : comp_to_double (compressed e m) < 2 ^ 20
  pub eight :
      time_comp_to_double divide (compressed e m)
      ≡ (if ltb (m * 8 ^ e) (2 ^ 31) then some (divide (m * 8 ^ e)) else none)
  pub apart : comp_to_double (compressed e m) * 4 ^ e ≡ m * 8 ^ e

-- The powers of two and eight.
powers :
    (e m : ℕ)
    → e < 8
    → m < 2 ^ 13
    → (m * 2 ^ (e * 3) ≡ m * 8 ^ e) × (m * 2 ^ e < 2 ^ 20) × (m * 2 ^ e * 4 ^ e ≡ m * 8 ^ e)
powers zero m h k = omega (arith, k)
powers (suc zero) m h k = omega (arith, k)
powers (suc (suc zero)) m h k = omega (arith, k)
powers (suc (suc (suc zero))) m h k = omega (arith, k)
powers (suc (suc (suc (suc zero)))) m h k = omega (arith, k)
powers (suc (suc (suc (suc (suc zero))))) m h k = omega (arith, k)
powers (suc (suc (suc (suc (suc (suc zero)))))) m h k = omega (arith, k)
powers (suc (suc (suc (suc (suc (suc (suc zero))))))) m h k = omega (arith, k)
powers (suc (suc (suc (suc (suc (suc (suc (suc e)))))))) m h k = absurd (omega arith)

bound_if :
    {F : Type 0} (divide : ℕ → F) (v : ℕ)
    → (do t ← (if ltb v (2 ^ 31) then some v else none); some (divide t))
      ≡ (if ltb v (2 ^ 31) then some (divide v) else none)
bound_if divide v = elim (Bool-cases (ltb v (2 ^ 31))) [
  | inl small ↦ rw small refl
  | inr large ↦ rw large refl
]

-- For every exponent and mantissa of a compressed number, `comp_to_double` gives the mantissa
-- times a power of two with that exponent and stays below 2^20; `time_comp_to_double` divides the
-- mantissa times a power of eight by the clock rate where that product is below 2^31, and
-- overflows otherwise; and the product is the first value times four to the exponent.
pub comp_to_double-Reads :
    {F : Type 0} (divide : ℕ → F) (e m : ℕ) → e < 8 → m < 2 ^ 13 → Reads divide e m
unfolding time_comp_to_double
comp_to_double-Reads divide e m h k =
    let (two, ticks) = values e m h k in
    let (eight, small, apart) = powers e m h k in
    record {
      two = two;
      small = rw two small;
      eight =
          ap (λ (o : Option ℕ). do v ← o; some (divide v)) ticks
          ∙ bound_if divide (m * 2 ^ (e * 3))
          ∙ ap (λ v. if ltb v (2 ^ 31) then some (divide v) else none) eight;
      apart = rw two apart;
    }
