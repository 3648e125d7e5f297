-- ===== src/CyclicFileRead/Lines/Reading.antt =====
-- A file read line by line.
use linux_system_monitoring.Base.{
  ℕ, zero, suc, ◌-◌, ◌≡◌, ◌≢◌, ◌<◌, refl, ap, arith, true, some, [], ◌∷◌, ◌++◌, All, length, Bytes,
}
use linux_system_monitoring.CyclicFileRead.Text.{first_line, fgets, ends_in_newline}

-- `fgets` reads a line that fits, with its newline.
pub fgets_line :
    (body rest : Bytes) (room : ℕ)
    → All (λ c. c ≢ b'\n') body
    → length body < room
    → fgets room (body ++ (b'\n' ∷ rest)) ≡ (body ++ (b'\n' ∷ []), rest)
unfolding fgets
fgets_line body rest zero h f = absurd (omega arith)
fgets_line [] rest (suc room) h f = refl
fgets_line (c ∷ cs) rest (suc room) h f = ground (arith, h.0, fgets_line cs rest room h.1)

pub ends_in_newline-concat : (body : Bytes) → ends_in_newline (body ++ (b'\n' ∷ [])) ≡ true
unfolding ends_in_newline
ends_in_newline-concat [] = refl
ends_in_newline-concat (c ∷ []) = refl
ends_in_newline-concat (c ∷ d ∷ cs) = ends_in_newline-concat (d ∷ cs)

-- The first line of a file is read whole.
pub first_line_fits :
    (size : ℕ) (body rest : Bytes)
    → All (λ c. c ≢ b'\n') body
    → length body < size - 1
    → first_line size (body ++ (b'\n' ∷ rest)) ≡ some (body ++ (b'\n' ∷ []))
unfolding first_line
first_line_fits size [] rest h f = ap (λ r. some r.0) (fgets_line [] rest (size - 1) h f)
first_line_fits size (c ∷ cs) rest h f =
    ap (λ r. some r.0) (fgets_line (c ∷ cs) rest (size - 1) h f)

pub first_line_lem :
    (body rest : Bytes)
    → All (λ c. c ≢ b'\n') body
    → length body < 1023
    → first_line 1024 (body ++ (b'\n' ∷ rest)) ≡ some (body ++ (b'\n' ∷ []))
first_line_lem body rest h f = first_line_fits 1024 body rest h (omega arith)
