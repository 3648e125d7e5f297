-- ===== src/Pacct/Values.antt =====
-- pacct_to_line_protocol.c: the numbers and names in an accounting record.
use linux_system_monitoring.Base.{
  Option, none, some, ◌>>=◌, ltb, ℕ, ◌*◌, ◌/◌, ◌%◌, ◌^◌, ◌==◌, [], ◌∷◌, concat, if◌then◌else◌,
  Bytes, codes,
}
use linux_system_monitoring.CString.{snprintf}

-- `comp_to_double`. A `comp_t` has 16 bits, and the product is below 2^20, so it is exact as a
-- `double`.
unfoldable pub comp_to_double : ℕ → ℕ
comp_to_double comp =
    let exponent = comp / 2 ^ 13 % 8 in let mantissa = comp % 2 ^ 13 in mantissa * 2 ^ exponent

-- `v` of `time_comp_to_double`, the number of clock ticks. The shift is one of an `int`, and undefined
-- where it does not fit.
unfoldable pub time_comp_ticks : ℕ → Option ℕ
time_comp_ticks comp =
    let v = (comp % 2 ^ 13) * 2 ^ (comp / 2 ^ 13 % 8 * 3) in if ltb v (2 ^ 31) then some v else none

-- `divide` is the division of a `double` by the number of clock ticks in a second.
unfoldable pub time_comp_to_double : {F : Type 0} → (ℕ → F) → ℕ → Option F
time_comp_to_double divide comp = do v ← time_comp_ticks comp; some (divide v)

-- The flags of <sys/acct.h> that `get_flag_string` names.
abbrev pub afork : ℕ
afork = 0x01

abbrev pub asu : ℕ
asu = 0x02

abbrev pub acore : ℕ
acore = 0x08

abbrev pub axsig : ℕ
axsig = 0x10

unfoldable pub get_flag_string : ℕ → Bytes
get_flag_string flag =
    if flag == afork
    then codes "AFORK"
    else if flag == asu
    then codes "ASU"
    else if flag == acore
    then codes "ACORE"
    else if flag == axsig
    then codes "AXSIG"
    else codes "NO_MATCH"

-- The fields of `struct acct_v3` that are used.
pub record Acct : Type 0 where
  pub flag : ℕ
  pub exitcode : ℕ
  pub pid : ℕ
  pub ppid : ℕ
  pub btime : ℕ
  pub utime : ℕ
  pub stime : ℕ
  pub etime : ℕ
  pub mem : ℕ
  pub comm : Bytes

-- The texts that the C library makes: `%u` or `%d` of a number, `%.2f` of a whole number, and
-- `strftime` of a time in the local zone.
pub record Printing : Type 0 where
  pub decimal : ℕ → Bytes
  pub two_places : ℕ → Bytes
  pub local_time : ℕ → Bytes

-- `format_time`
unfoldable pub format_time : Printing → ℕ → Bytes
format_time p start_time =
    if start_time == 0 then codes "0" else snprintf 64 (p.local_time start_time)

unfoldable pub construct_payload : Printing → Acct → Bytes → ℕ → Bytes
construct_payload p r timestamp payload_size = snprintf payload_size (
    concat (
      codes "process_accounting,pid="
      ∷ p.decimal r.pid
      ∷ codes ",ppid="
      ∷ p.decimal r.ppid
      ∷ codes ",start_time="
      ∷ format_time p r.btime
      ∷ codes ",cpu_time="
      ∷ p.two_places (comp_to_double r.utime)
      ∷ codes ",system_time="
      ∷ p.two_places (comp_to_double r.stime)
      ∷ codes ",elapsed_time="
      ∷ p.two_places (comp_to_double r.etime)
      ∷ codes ",average_memory_usage="
      ∷ p.two_places (comp_to_double r.mem)
      ∷ codes ",exit_code="
      ∷ p.decimal r.exitcode
      ∷ codes ",flag="
      ∷ get_flag_string r.flag
      ∷ codes " process=\""
      ∷ r.comm
      ∷ codes "\" "
      ∷ timestamp
      ∷ []))
