-- ===== src/CyclicFileRead/Sys.antt =====
-- sys.c: one line of temperatures for each chip that the sensors library detects.
pub mod Temperatures
use linux_system_monitoring.Base.{
  ℕ, zero, suc, ◌+◌, ◌==◌, ltb, Bool, true, false, ◌&&◌, not, Option, none, some, List, [], ◌∷◌,
  ◌++◌, if◌then◌else◌, ◌>>=◌, Bytes, codes,
}
use linux_system_monitoring.CyclicFileRead.Queue.{
  State, Surroundings, enqueue, empty_queue, max_line,
}
use linux_system_monitoring.CyclicFileRead.Text.{strcat}

-- What the library tells of a subfeature: whether it is a temperature's input, its flags, and the
-- value that `sensors_get_value` gives, none for a failure.
pub record Subfeature (F : Type 0) : Type 0 where
  pub is_input : Bool
  pub flags : ℕ
  pub value : Option F

pub record Feature (F : Type 0) : Type 0 where
  pub is_temperature : Bool
  pub name : Bytes
  pub subfeatures : List (Subfeature F)

pub record Chip (F : Type 0) : Type 0 where
  pub prefix : Bytes
  pub features : List (Feature F)

-- `strstr(message, ".") != NULL`
unfoldable pub has_dot : Bytes → Bool
has_dot [] = false
has_dot (c ∷ cs) = if c == b'.' then true else has_dot cs

-- The return value and the queue.
unfoldable pub go_on : (State → Option (ℕ × State)) → ℕ × State → Option (ℕ × State)
go_on later (failed, s) = if failed == 1 then some (1, s) else later s

-- `print` is `%.2lf`.
module _ {F : Type 0} (print : F → Bytes) where
  unfoldable pub value_text : Option F → Bytes
  value_text none = codes "0.00"
  value_text (some v) = print v

  -- The body of the loop over the subfeatures. `sub->flags && SENSORS_MODE_R` is true for all flags
  -- but 0; `placeholder` has 64 cells.
  unfoldable pub append_subfeature : Bytes → Subfeature F → Bytes → Option Bytes
  append_subfeature name sub message =
      if sub.is_input && not (sub.flags == 0)
      then (do
        placeholder ← strcat 64 [] (name ++ (b'=' ∷ value_text sub.value))
        strcat max_line message placeholder)
      else some message

  unfoldable pub append_subfeatures : Bytes → List (Subfeature F) → Bytes → Option Bytes
  append_subfeatures name [] message = some message
  append_subfeatures name (sub ∷ subs) message = do
    longer ← append_subfeature name sub message
    append_subfeatures name subs longer

  -- The loop over the features; `tempnr` counts the temperatures.
  unfoldable pub append_features : ℕ → List (Feature F) → Bytes → Option Bytes
  append_features tempnr [] message = some message
  append_features tempnr (f ∷ fs) message =
      if not f.is_temperature then append_features tempnr fs message else (do
        separated ← (if ltb 0 tempnr then strcat max_line message (codes ",") else some message)
        longer ← append_subfeatures f.name f.subfeatures separated
        append_features (tempnr + 1) fs longer)

  unfoldable pub chip_message : Chip F → Option Bytes
  chip_message c = do
    begun ← strcat max_line [] (codes "sys-temp,chip=" ++ (c.prefix ++ codes " "))
    append_features 0 c.features begun

  -- The loop over the chips. A message without a dot holds no temperature.
  unfoldable pub each_chip : Surroundings → List (Chip F) → State → Option (ℕ × State)
  each_chip env [] s = some (0, s)
  each_chip env (c ∷ cs) s = do
    message ← chip_message c
    (let skip = each_chip env cs s in
        if has_dot message
        then (do
          whole ← strcat max_line message (codes " ")
          r ← enqueue env whole s
          go_on (each_chip env cs) r)
        else skip)

  -- `none` for the chips is a failure of `sensors_init`.
  unfoldable pub sys : Surroundings → Option (List (Chip F)) → State → Option (ℕ × State)
  sys env none s = some (1, s)
  sys env (some chips) s = each_chip env chips (empty_queue s)
