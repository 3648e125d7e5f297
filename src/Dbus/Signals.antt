-- ===== src/Dbus/Signals.antt =====
-- What the signals of systemd turn into, as a table of the messages that are reported.
use linux_system_monitoring.Base.{
  ℕ, map, All, length-append, ◌≤◌, ◌≡◌, ◌≢◌, ◌<◌, refl, ap, arith, Bool, true, false, if◌then◌else◌,
  Option, none, some, List, [], ◌∷◌, ◌++◌, length, Bytes, codes, concat,
}
use linux_system_monitoring.CString.{str_eq, snprintf_fits}
use linux_system_monitoring.Dbus.{
  Argument, uint32, object_path, string, other, Message, Surroundings, send, job_new_line,
  job_removed_line, first_argument, second_argument, third_argument, handle_job_new_signal,
  handle_job_removed_signal, by_member, by_interface, process_dbus_messages,
}

-- The signal of a job: a number, a path, and a text, and arguments behind them; a signal of a job with other
-- arguments, another signal of the manager, and one of others.
pub data Signal : Type 0 where
  job_new : (job_id : ℕ) (path unit_name : Bytes) (rest : List Argument) → Signal
  job_removed : (job_id : ℕ) (path result : Bytes) (rest : List Argument) → Signal
  job_misfit : (removed : Bool) (args : List Argument) → Signal
  of_manager : (member : Bytes) (args : List Argument) → Signal
  of_others : (interface : Bytes) (member : Option Bytes) (args : List Argument) → Signal

-- The message that the bus delivers for a signal.
abbrev pub delivered : Signal → Message
delivered (job_new n p u rest) = record {
  interface = some (codes "org.freedesktop.systemd1.Manager");
  member = some (codes "JobNew");
  args = uint32 n ∷ object_path p ∷ string u ∷ rest;
}
delivered (job_removed n p r rest) = record {
  interface = some (codes "org.freedesktop.systemd1.Manager");
  member = some (codes "JobRemoved");
  args = uint32 n ∷ object_path p ∷ string r ∷ rest;
}
delivered (job_misfit removed args) = record {
  interface = some (codes "org.freedesktop.systemd1.Manager");
  member = some (if removed then codes "JobRemoved" else codes "JobNew");
  args = args;
}
delivered (of_manager m args) = record {
  interface = some (codes "org.freedesktop.systemd1.Manager");
  member = some m;
  args = args;
}
delivered (of_others i m args) = record { interface = some i; member = m; args = args }

-- The text of a message, none if nothing is reported.
abbrev pub line : Surroundings → Signal → Option Bytes
line env (job_new n p u rest) =
    some (concat (codes "systemdSignal,job=new unit=\"" ∷ u ∷ codes "\",id=" ∷ env.decimal n ∷ []))
line env (job_removed n p r rest) = some (
    concat (
      codes "systemdSignal,job=removed id="
      ∷ env.decimal n
      ∷ codes ",result=\""
      ∷ r
      ∷ codes "\""
      ∷ []))
line env (job_misfit removed args) = none
line env (of_manager m args) = none
line env (of_others i m args) = none

-- Not a number, a path and a text.
abbrev pub IsMisfit : List Argument → Type 0
IsMisfit args =
    (n : ℕ) (p t : Bytes) (rest : List Argument) → args ≢ uint32 n ∷ object_path p ∷ string t ∷ rest

-- A number of 32 bits and a text that fits into its array; the other cases are told apart by the member, the
-- arguments and the interface.
abbrev pub IsSignal : Signal → Type 0
IsSignal (job_new n p u rest) = (n < 4294967296) × (length u < 190)
IsSignal (job_removed n p r rest) = (n < 4294967296) × (length r < 190)
IsSignal (job_misfit removed args) = IsMisfit args
IsSignal (of_manager m args) =
    (str_eq m (codes "JobNew") ≡ false) × (str_eq m (codes "JobRemoved") ≡ false)
IsSignal (of_others i m args) = str_eq i (codes "org.freedesktop.systemd1.Manager") ≡ false

-- The texts that there are, behind those before.
abbrev pub sends : Option Bytes → List Bytes → List Bytes
sends none sent = sent
sends (some text) sent = sent ++ (text ∷ [])

abbrev pub sends_all : Surroundings → List Signal → List Bytes → List Bytes
sends_all env [] sent = sent
sends_all env (g ∷ gs) sent = sends_all env gs (sends (line env g) sent)

first_argument-misfit :
    (l : ℕ → Bytes → Bytes) (args : List Argument) (sent : List Bytes)
    → IsMisfit args
    → first_argument l args sent ≡ sent
unfolding first_argument second_argument third_argument
first_argument-misfit l [] sent h = refl
first_argument-misfit l (object_path p ∷ rest) sent h = refl
first_argument-misfit l (string t ∷ rest) sent h = refl
first_argument-misfit l (other ∷ rest) sent h = refl
first_argument-misfit l (uint32 n ∷ []) sent h = refl
first_argument-misfit l (uint32 n ∷ uint32 k ∷ rest) sent h = refl
first_argument-misfit l (uint32 n ∷ string t ∷ rest) sent h = refl
first_argument-misfit l (uint32 n ∷ other ∷ rest) sent h = refl
first_argument-misfit l (uint32 n ∷ object_path p ∷ []) sent h = refl
first_argument-misfit l (uint32 n ∷ object_path p ∷ uint32 k ∷ rest) sent h = refl
first_argument-misfit l (uint32 n ∷ object_path p ∷ object_path o ∷ rest) sent h = refl
first_argument-misfit l (uint32 n ∷ object_path p ∷ other ∷ rest) sent h = refl
first_argument-misfit l (uint32 n ∷ object_path p ∷ string t ∷ rest) sent h =
    absurd (h n p t rest refl)

module _ (env : Surroundings) (short : (n : ℕ) → n < 4294967296 → length (env.decimal n) ≤ 10) where
  job_new_line_lem :
      (n : ℕ) (p u : Bytes) (rest : List Argument)
      → n < 4294967296
      → length u < 190
      → some (job_new_line env n u) ≡ line env (job_new n p u rest)
  unfolding job_new_line
  job_new_line_lem n p u rest word h = ap some (snprintf_fits 256 _ room)
    where
      room :
          length (
            codes "systemdSignal,job=new unit=\""
            ++ (u ++ (codes "\",id=" ++ (env.decimal n ++ []))))
          < 256
      room = omega (
        arith,
        h,
        short n word,
        length-append u (codes "\",id=" ++ (env.decimal n ++ [])),
        length-append (env.decimal n) [],
      )

  job_removed_line_lem :
      (n : ℕ) (p r : Bytes) (rest : List Argument)
      → n < 4294967296
      → length r < 190
      → some (job_removed_line env n r) ≡ line env (job_removed n p r rest)
  unfolding job_removed_line
  job_removed_line_lem n p r rest word h = ap some (snprintf_fits 256 _ room)
    where
      room :
          length (
            codes "systemdSignal,job=removed id="
            ++ (env.decimal n ++ (codes ",result=\"" ++ (r ++ (codes "\"" ++ [])))))
          < 256
      room = omega (
        arith,
        h,
        short n word,
        length-append (env.decimal n) (codes ",result=\"" ++ (r ++ (codes "\"" ++ []))),
        length-append r (codes "\"" ++ []),
      )

  -- One message.
  handled :
      (g : Signal) (sent : List Bytes)
      → IsSignal g
      → by_interface env (delivered g) (delivered g).interface sent ≡ some (sends (line env g) sent)
  unfolding by_interface by_member str_eq handle_job_new_signal handle_job_removed_signal
      first_argument second_argument third_argument send
  handled (job_new n p u rest) sent h =
      ap (λ t. some (sends t sent)) (job_new_line_lem n p u rest h.0 h.1)
  handled (job_removed n p r rest) sent h =
      ap (λ t. some (sends t sent)) (job_removed_line_lem n p r rest h.0 h.1)
  handled (job_misfit true args) sent h =
      ap some (first_argument-misfit (job_removed_line env) args sent h)
  handled (job_misfit false args) sent h =
      ap some (first_argument-misfit (job_new_line env) args sent h)
  handled (of_manager m args) sent h = rw h.0 (rw h.1 refl)
  handled (of_others i m args) sent h = rw h

  -- When decimal numbers of 32 bits have at most 10 characters, the loop over the D-Bus messages of
  -- a sequence of signals hands to `send_to_mq`, in order, the whole line of each JobNew and
  -- JobRemoved signal of the manager with a number, a path and a text of less than 190 characters,
  -- and nothing for one with other arguments, for the manager's other signals, and for the signals
  -- of other interfaces.
  pub process_dbus_messages_lem :
      (gs : List Signal) (sent : List Bytes)
      → All IsSignal gs
      → process_dbus_messages env (map (λ g. some (delivered g)) gs) sent
        ≡ some (sends_all env gs sent)
  unfolding process_dbus_messages
  process_dbus_messages_lem [] sent h = refl
  process_dbus_messages_lem (g ∷ gs) sent h =
      rw (handled g sent h.0) (process_dbus_messages_lem gs (sends (line env g) sent) h.1)
