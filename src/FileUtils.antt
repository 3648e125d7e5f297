-- ===== src/FileUtils.antt =====
-- utilities/file_utils.c: the contents of a file as a string in a caller's array.
use linux_system_monitoring.Base.{
  ℕ, ◌==◌, ltb, le→ltb_false, ◌≡◌, ◌<◌, refl, arith, Bool, Bool-cases, inl, inr, true, false, ◌&&◌,
  Option, none, some, [], ◌∷◌, ◌++◌, if◌then◌else◌, ◌>>=◌, length, length-take, take, take_of_le,
  Bytes,
}
use linux_system_monitoring.Integer.{ℤ, negsuc, to_int}
use linux_system_monitoring.Memory.{write, filled, write-filled, write-out_of_bounds, length-filled}

-- A file that was opened: what can be read of it, and whether there is an error behind that.
pub record Stream : Type 0 where
  pub contents : Bytes
  pub failed : Bool

-- `fread`, and the NUL behind what it wrote. `none` for the file is a failed `fopen`. The number of bytes,
-- a `size_t`, is returned as an `int`.
unfoldable pub read_file_into_buffer : Option Stream → Bytes → ℕ → Option (ℤ × Bytes)
read_file_into_buffer none buffer buffer_size = some (negsuc 0, buffer)
read_file_into_buffer (some file) buffer buffer_size =
    let bytes_read = take buffer_size file.contents in
    if ltb (length buffer) (length bytes_read)
    then none
    else if length bytes_read == 0 && file.failed
    then some (negsuc 0, buffer)
    else (do
      ended ← write (filled buffer bytes_read) (length bytes_read) 0
      some (to_int (length bytes_read), ended))

and_false : (b : Bool) → (b && false) ≡ false
and_false true = refl
and_false false = refl

-- For a file that can be read and an array of exactly `buffer_size` cells,
-- `read_file_into_buffer` returns the length of the file as an int of 32 bits holds it and leaves
-- its contents with a NUL behind them if the file is shorter than the array; otherwise it writes
-- behind the end of the array.
pub read_file_into_buffer_lem :
    (contents buffer : Bytes)
    → read_file_into_buffer
        (some (record { contents = contents; failed = false }))
        buffer
        (length buffer)
      ≡ (if ltb (length contents) (length buffer)
          then some (to_int (length contents), filled buffer (contents ++ (0 ∷ [])))
          else none)
unfolding read_file_into_buffer
read_file_into_buffer_lem contents buffer =
    elim (Bool-cases (ltb (length contents) (length buffer))) [
      | inl small ↦
          let fits : length contents < length buffer = ground (arith, small) in
          rw (
            small,
            take_of_le (length buffer) contents (omega (arith, fits)),
            le→ltb_false (length buffer) (length contents) (omega (arith, fits)),
            and_false (length contents == 0),
            write-filled buffer contents 0 fits (length contents) refl,
          )
      | inr large ↦
          let full : length (take (length buffer) contents) ≡ length buffer =
            ground (arith, large, length-take (length buffer) contents) in
          let size : length (filled buffer (take (length buffer) contents)) ≡ length buffer =
            length-filled buffer (take (length buffer) contents) (omega (arith, full)) in
          rw (
            large,
            write-out_of_bounds (filled buffer (take (length buffer) contents))
                (length (take (length buffer) contents)) 0 (omega (arith, size, full)),
            full,
            le→ltb_false (length buffer) (length buffer) (omega arith),
            and_false (length buffer == 0),
          )
    ]
