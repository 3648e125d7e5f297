-- ===== src/CyclicFileRead/Disk/Published.antt =====
-- The way of the disk lines from /proc/diskstats over the bridge to the broker.
use linux_system_monitoring.Base.{
  ℕ, suc, ◌+◌, ◌≡◌, ◌≢◌, ◌<◌, refl, ap, ◌∙◌, arith, true, false, some, List, [], ◌∷◌, ◌++◌, map,
  append_assoc, All, All-append, length, length-append, drop, Bytes, codes,
}
use linux_system_monitoring.Escape.Reading.{ends_in_backslash}
use linux_system_monitoring.CyclicFileRead.Forms.{disk_form}
use linux_system_monitoring.CyclicFileRead.Lines.{IsWord, Laid-IsWord, no_blank, interleave}
use linux_system_monitoring.CyclicFileRead.Queue.{State, Surroundings, dequeue}
use linux_system_monitoring.CyclicFileRead.Fifo.{Holds}
use linux_system_monitoring.CyclicFileRead.Disk.{disk}
use linux_system_monitoring.CyclicFileRead.Disk.Messages.{
  Device, IsDevice, IsGenerous, file_of, stamped, disk_line, disk-dequeue,
}
use linux_system_monitoring.Bridge.Forwarding.{Broker, Wait, running, process_messages}
use linux_system_monitoring.Bridge.Forwarding.Delivery.{received}
use linux_system_monitoring.Bridge.Lines.{
  Line, text, with_host, IsLine, unescaped_space-word, ends_in_backslash-append,
  process_messages-lines,
}

-- The tags of a device: its two numbers and its name.
abbrev pub key_of : Bytes → Bytes → Bytes
key_of major minor =
    codes "proc-diskstats,major=" ++ (major ++ (codes ",minor=" ++ (minor ++ codes ",name=")))

-- The fields: the values from the fourth on, behind their labels, and the timestamp.
abbrev pub fields_of : List Bytes → Bytes → Bytes
fields_of [] timestamp = timestamp
fields_of (v ∷ vs) timestamp =
    codes "reads_completed="
    ++ (v ++ (interleave (drop 4 disk_form) vs ++ (codes " " ++ timestamp)))

abbrev pub line_of : List Bytes → Bytes → Line
line_of (major ∷ minor ∷ name ∷ vs) timestamp = record {
  tags = key_of major minor ++ name;
  fields = fields_of vs timestamp;
}
line_of vs timestamp = record { tags = []; fields = [] }

text_of :
    (vs : List Bytes) (timestamp : Bytes)
    → 3 < length vs
    → text (line_of vs timestamp) ≡ disk_line vs ++ timestamp
text_of [] timestamp h = absurd (omega arith)
text_of (a ∷ []) timestamp h = absurd (omega arith)
text_of (a ∷ b ∷ []) timestamp h = absurd (omega arith)
text_of (a ∷ b ∷ c ∷ []) timestamp h = absurd (omega arith)
text_of (a ∷ b ∷ c ∷ v ∷ vs) timestamp h = simp append_assoc

abbrev pub all_values : Device → List Bytes
all_values d = d.values ++ (d.final ∷ [])

abbrev pub name_of : List Bytes → Bytes
name_of (major ∷ minor ∷ name ∷ vs) = name
name_of vs = []

-- The name does not end in a backslash, and the line fits with its timestamp and the host name.
pub record HasRoom (hostname : Bytes) (d : Device) : Type 0 where
  pub name_plain : ends_in_backslash false (name_of d.values) ≡ false
  pub fits : length (disk_line (all_values d)) + 64 + length (codes ",host=" ++ hostname) < 1024

line_of-IsLine :
    (hostname : Bytes) (vs : List Bytes) (final timestamp newline : Bytes)
    → length vs ≡ 19
    → All IsWord (vs ++ (newline ∷ []))
    → ends_in_backslash false (name_of vs) ≡ false
    → length (disk_line (vs ++ (final ∷ []))) + 64 + length (codes ",host=" ++ hostname) < 1024
    → length timestamp < 64
    → IsLine hostname (line_of (vs ++ (final ∷ [])) timestamp)
line_of-IsLine hostname [] final timestamp newline n words plain fits t = absurd (omega arith)
line_of-IsLine hostname (a ∷ []) final timestamp newline n words plain fits t = absurd (omega arith)
line_of-IsLine hostname (a ∷ b ∷ []) final timestamp newline n words plain fits t =
    absurd (omega arith)
line_of-IsLine hostname (a ∷ b ∷ c ∷ vs) final timestamp newline n words plain fits t = record {
  no_space =
      unescaped_space-word false (key_of a b ++ c)
        (All-append (λ d. d ≢ b' ') (key_of a b) c key_blank (no_blank c words.1.1.0));
  no_backslash = ends_in_backslash-append false (key_of a b) c ∙ rw key_end plain;
  fits = omega (
    arith,
    ap length (text_of (a ∷ b ∷ c ∷ (vs ++ (final ∷ []))) timestamp more),
    length-append (disk_line (a ∷ b ∷ c ∷ (vs ++ (final ∷ [])))) timestamp,
    fits,
    t,
  );
}
  where
    more : 3 < length (a ∷ b ∷ c ∷ (vs ++ (final ∷ [])))
    more = omega (arith, length-append vs (final ∷ []))

    key_end : ends_in_backslash false (key_of a b) ≡ false
    key_end =
        ends_in_backslash-append false (codes "proc-diskstats,major=")
          (a ++ (codes ",minor=" ++ (b ++ codes ",name=")))
        ∙ ends_in_backslash-append _ a (codes ",minor=" ++ (b ++ codes ",name="))
        ∙ ends_in_backslash-append _ b (codes ",name=")

    major : All (λ d. d ≢ b' ') (codes "proc-diskstats,major=")
    major = grind arith

    minor : All (λ d. d ≢ b' ') (codes ",minor=")
    minor = grind arith

    name : All (λ d. d ≢ b' ') (codes ",name=")
    name = grind arith

    key_blank : All (λ d. d ≢ b' ') (key_of a b)
    key_blank =
        All-append (λ d. d ≢ b' ') (codes "proc-diskstats,major=")
          (a ++ (codes ",minor=" ++ (b ++ codes ",name="))) major
          (All-append (λ d. d ≢ b' ') a (codes ",minor=" ++ (b ++ codes ",name="))
            (no_blank a words.0)
            (All-append (λ d. d ≢ b' ') (codes ",minor=") (b ++ codes ",name=") minor
              (All-append (λ d. d ≢ b' ') b (codes ",name=") (no_blank b words.1.0) name)))

-- The lines as tags and fields, each with the timestamp of its node, from node `n` on.
abbrev pub disk_lines : Surroundings → ℕ → List Device → List Line
disk_lines env n [] = []
disk_lines env n (d ∷ ds) = line_of (all_values d) (env.timestamp n) ∷ disk_lines env (suc n) ds

stamped-lines :
    (env : Surroundings) (n : ℕ) (ds : List Device)
    → All IsDevice ds
    → map (λ m. some m) (stamped env n ds) ≡ map (λ l. some (text l)) (disk_lines env n ds)
stamped-lines env n [] ok = refl
stamped-lines env n (d ∷ ds) (ok, oks) = rw (
  text_of (all_values d) (env.timestamp n)
      (omega (arith, ok.twenty, length-append d.values (d.final ∷ []))),
  stamped-lines env (suc n) ds oks,
)

disk_lines-IsLine :
    (hostname : Bytes) (env : Surroundings) (n : ℕ) (ds : List Device)
    → IsGenerous env
    → All IsDevice ds
    → All (HasRoom hostname) ds
    → All (IsLine hostname) (disk_lines env n ds)
disk_lines-IsLine hostname env n [] g ok room = tt
disk_lines-IsLine hostname env n (d ∷ ds) g (ok, oks) (room, rooms) = (
  line_of-IsLine hostname d.values d.final (env.timestamp n) (d.final ++ (b'\n' ∷ [])) ok.twenty
      (Laid-IsWord ok.laid) room.name_plain room.fits (g.short n),
  disk_lines-IsLine hostname env (suc n) ds g oks rooms,
)

-- For a broker that takes every message, an empty queue, memory, timestamps that fit, and a
-- /proc/diskstats of lines of 20 words that fit with a timestamp and the host name and whose
-- device names do not end in a backslash, `disk` returns 0 and `dequeue` sends a line for each
-- device; however the bridge receives these lines over its rounds, in the order in which they
-- were sent, `process_messages` goes on and publishes for each device, in order, its two numbers
-- and its name as tags, the host name as the last tag, and the other values and the timestamp
-- behind the blank.
pub disk-published :
    (b : Broker) (hostname : Bytes) (env : Surroundings) (ds : List Device) (s : State)
    (ws : List Wait) (published : List Bytes)
    → ((n : ℕ) → b.accepts n ≡ true)
    → IsGenerous env
    → All IsDevice ds
    → All (HasRoom hostname) ds
    → Holds s []
    → received ws ≡ map (λ m. some m) (stamped env s.fresh ds)
    → (s1 s2 : State) × (disk env (some (file_of ds)) s ≡ some (0, s1))
      × (dequeue s1 ≡ some s2)
      × (s2.sent ≡ s.sent ++ stamped env s.fresh ds)
      × (process_messages b hostname ws published
          ≡ (running, published ++ map (with_host hostname) (disk_lines env s.fresh ds)))
disk-published b hostname env ds s ws published accepts g ok room h got =
    let (s1, s2, queued, sends, empty, sent) = disk-dequeue env ds s [] g ok h in
    (
      s1,
      s2,
      queued,
      sends,
      sent,
      process_messages-lines b accepts hostname ws (disk_lines env s.fresh ds) published
          (got ∙ stamped-lines env s.fresh ds ok)
          (disk_lines-IsLine hostname env s.fresh ds g ok room),
    )
