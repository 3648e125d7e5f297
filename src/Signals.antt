-- ===== src/Signals.antt =====
-- utilities/signal_handling.c: one handler for four signals.
use linux_system_monitoring.Base.{
  ℕ, ◌==◌, Bool, false, List, [], ◌∷◌, ◌++◌, if◌then◌else◌, Bytes, codes,
}
use linux_system_monitoring.Posix.{Calls}

-- `SIGINT`, `SIGTERM`, `SIGHUP` and `SIGQUIT`, in the order of the calls of `sigaction`.
abbrev pub handled : List ℕ
handled = 2 ∷ 15 ∷ 1 ∷ 3 ∷ []

module _ {W : Type 0} (c : Calls W) where
  -- Up to the first that fails; the return value is 0 or -1 (here 1).
  unfoldable pub register : List ℕ → W → ℕ × W
  register [] w = (0, w)
  register (n ∷ ns) w =
      let (done, w') = c.sigaction n w in
      let later = register ns w' in if done then later else (1, w')

  unfoldable pub setup_signal_handling : W → ℕ × W
  setup_signal_handling w = register handled w

unfoldable pub signal_name : ℕ → Bytes
signal_name n =
    if n == 2
    then codes "SIGINT"
    else if n == 15
    then codes "SIGTERM"
    else if n == 1
    then codes "SIGHUP"
    else if n == 3
    then codes "SIGQUIT"
    else codes "UNKNOWN"

-- What `print_signal` writes.
unfoldable pub print_signal : ℕ → Bytes
print_signal n =
    (b'\n' ∷ codes "Received signal ") ++ (signal_name n ++ (codes ", stopping..." ++ (b'\n' ∷ [])))

-- `keep_running`, and what was written.
unfoldable pub handle_signal : ℕ → Bool × Bytes → Bool × Bytes
handle_signal n (keep_running, written) = (false, written ++ print_signal n)
