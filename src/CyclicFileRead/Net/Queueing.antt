-- ===== src/CyclicFileRead/Net/Queueing.antt =====
-- The way of /proc/net/dev through net.c into the queue.
use linux_system_monitoring.Base.{
  suc, ◌+◌, ◌-◌, ◌≡◌, ◌≢◌, ◌≤◌, ◌<◌, refl, ap, subst, ◌∙◌, arith, some, List, [], ◌∷◌, ◌++◌,
  append-nil, append_assoc, All, length, Bytes,
}
use linux_system_monitoring.CyclicFileRead.Forms.{net_form1, net_form2}
use linux_system_monitoring.CyclicFileRead.Text.{line_count}
use linux_system_monitoring.CyclicFileRead.Lines.{Laid, tokens-Laid}
use linux_system_monitoring.CyclicFileRead.Lines.Reading.{fgets_line, ends_in_newline-concat}
use linux_system_monitoring.CyclicFileRead.Queue.{State, Surroundings, dequeue}
use linux_system_monitoring.CyclicFileRead.Fifo.{Holds, enqueue_refines, dequeue_refines}
use linux_system_monitoring.CyclicFileRead.Disk.Messages.{IsGenerous, line_count-line}
use linux_system_monitoring.CyclicFileRead.Stat.Messages.{stamp}
use linux_system_monitoring.CyclicFileRead.Net.{write_interfaces, write_net_message, net}
use linux_system_monitoring.CyclicFileRead.Net.Messages.{
  net_line, receive_message_lem, transmit_message_lem,
}

-- A line of the file, without its newline, and the values in it.
pub record Interface : Type 0 where
  pub body : Bytes
  pub name : Bytes
  pub received : List Bytes
  pub transmitted : List Bytes
  pub final : Bytes

abbrev pub received_line : Interface → Bytes
received_line i = net_line net_form1 i.name i.received

abbrev pub transmitted_line : Interface → Bytes
transmitted_line i = net_line net_form2 i.name (i.transmitted ++ (i.final ∷ []))

-- The line is one of /proc/net/dev: a name with a colon, 8 values, and 8 values; what is made of
-- it fits into a message with its timestamp.
pub record IsInterface (i : Interface) : Type 0 where
  pub one_line : All (λ c. c ≢ b'\n') i.body
  pub short : length i.body < 1023
  pub laid :
      Laid
        ((i.name ++ (b':' ∷ []))
          ∷ (i.received ++ (i.transmitted ++ ((i.final ++ (b'\n' ∷ [])) ∷ []))))
        (i.body ++ (b'\n' ∷ []))
  pub eight : length i.received ≡ 8
  pub seven : length i.transmitted ≡ 7
  pub named : length i.name < 64
  pub fits : length (received_line i) + 64 ≤ 1024
  pub fits_back : length (transmitted_line i) + 64 ≤ 1024

abbrev pub interfaces_text : List Interface → Bytes
interfaces_text [] = []
interfaces_text (i ∷ is) = i.body ++ (b'\n' ∷ interfaces_text is)

-- The two lines above the interfaces.
pub record Heading : Type 0 where
  pub first : Bytes
  pub second : Bytes

pub record IsHeading (h : Heading) : Type 0 where
  pub first_line : All (λ c. c ≢ b'\n') h.first
  pub first_short : length h.first < 1023
  pub second_line : All (λ c. c ≢ b'\n') h.second
  pub second_short : length h.second < 1023

abbrev pub file_of : Heading → List Interface → Bytes
file_of h is = h.first ++ (b'\n' ∷ (h.second ++ (b'\n' ∷ interfaces_text is)))

-- Two lines for each interface: what was received, then what was sent.
abbrev pub net_lines : List Interface → List Bytes
net_lines [] = []
net_lines (i ∷ is) = received_line i ∷ transmitted_line i ∷ net_lines is

write_interfaces_refines :
    (env : Surroundings) (is : List Interface) (s : State) (ms : List Bytes)
    → IsGenerous env
    → All IsInterface is
    → Holds s ms
    → (s' : State) × (write_interfaces env (length is) (interfaces_text is) s ≡ some (0, s'))
      × Holds s' (ms ++ stamp env s.fresh (net_lines is))
      × (s'.sent ≡ s.sent)
unfolding write_interfaces
write_interfaces_refines env [] s ms g ok h = (s, refl, rw append-nil h, refl)
write_interfaces_refines env (i ∷ is) s ms g (ok, oks) h =
    let (s1, queued1, holds1, kept1, next1) =
      enqueue_refines env (received_line i) s ms h (g.grants s.fresh)
        (omega (arith, ok.fits, g.short s.fresh)) in
    let (s2, queued2, holds2, kept2, next2) =
      enqueue_refines env (transmitted_line i) s1 _ holds1 (g.grants s1.fresh)
        (omega (arith, ok.fits_back, g.short s1.fresh)) in
    let (s', runs, holds', kept') = write_interfaces_refines env is s2 _ g oks holds2 in
    (
      s',
      rw
          (
            fgets_line i.body (interfaces_text is) 1023 ok.one_line ok.short,
            ends_in_newline-concat i.body,
            receive_message_lem i.name (i.body ++ (b'\n' ∷ [])) i.received
                (i.transmitted ++ ((i.final ++ (b'\n' ∷ [])) ∷ [])) (tokens-Laid ok.laid) ok.eight
                ok.named (omega (arith, ok.fits)),
            queued1,
            transmit_message_lem i.name i.final i.transmitted ok.seven
                (omega (arith, ok.fits_back)),
            queued2,
          )
          runs,
      subst (Holds s')
          (append_assoc (ms ++ _) _ (stamp env s2.fresh (net_lines is))
            ∙ append_assoc ms _ _
            ∙ ap
                (λ n.
                  ms
                  ++ ((received_line i ++ env.timestamp s.fresh)
                      ∷ (transmitted_line i ++ env.timestamp s1.fresh)
                      ∷ stamp env n (net_lines is)))
                next2
            ∙ ap
                (λ n.
                  ms
                  ++ ((received_line i ++ env.timestamp s.fresh)
                      ∷ (transmitted_line i ++ env.timestamp n)
                      ∷ stamp env (suc n) (net_lines is)))
                next1)
          holds',
      kept' ∙ kept2 ∙ kept1,
    )

line_count-interfaces_text :
    (is : List Interface) → All IsInterface is → line_count (interfaces_text is) ≡ length is
line_count-interfaces_text [] h = unfold line_count in refl
line_count-interfaces_text (i ∷ is) h =
    line_count-line i.body (interfaces_text is) h.0.one_line
    ∙ ap suc (line_count-interfaces_text is h.1)

-- The file has a line for each interface, and two more.
line_count-file_of :
    (hd : Heading) (is : List Interface)
    → IsHeading hd
    → All IsInterface is
    → line_count (file_of hd is) ≡ suc (suc (length is))
line_count-file_of hd is h ok =
    line_count-line hd.first (hd.second ++ (b'\n' ∷ interfaces_text is)) h.first_line
    ∙ ap suc (
        line_count-line hd.second (interfaces_text is) h.second_line
        ∙ ap suc (line_count-interfaces_text is ok))

-- `net` queues the two lines of each interface.
pub net_queues :
    (env : Surroundings) (hd : Heading) (is : List Interface) (s : State) (ms : List Bytes)
    → IsGenerous env
    → IsHeading hd
    → All IsInterface is
    → Holds s ms
    → (s' : State) × (net env (some (file_of hd is)) s ≡ some (0, s'))
      × Holds s' (ms ++ stamp env s.fresh (net_lines is))
      × (s'.sent ≡ s.sent)
unfolding net write_net_message
net_queues env hd is s ms g hh ok h =
    let (s', runs, holds, kept) = write_interfaces_refines env is s ms g ok h in
    (
      s',
      rw
          (
            line_count-file_of hd is hh ok,
            fgets_line hd.first (hd.second ++ (b'\n' ∷ interfaces_text is)) 1023 hh.first_line
                hh.first_short,
            fgets_line hd.second (interfaces_text is) 1023 hh.second_line hh.second_short,
          )
          (ap (λ n. write_interfaces env n (interfaces_text is) s) {x = suc (suc (length is)) - 2}
              {y = length is} (omega arith)
            ∙ runs),
      holds,
      kept,
    )

-- When memory is there, timestamps fit, and /proc/net/dev consists of two lines and, for each
-- interface, a line of a name with a colon and 16 words that fits, `net` returns 0 and a
-- following `dequeue` sends what was queued before and then, for each interface in order, its
-- name with the first 8 words behind the labels of `net_form1` and its name with the last 8 words
-- behind the labels of `net_form2`, each with the timestamp of its node, and leaves the queue
-- empty.
pub net-dequeue :
    (env : Surroundings) (hd : Heading) (is : List Interface) (s : State) (ms : List Bytes)
    → IsGenerous env
    → IsHeading hd
    → All IsInterface is
    → Holds s ms
    → (s1 s2 : State) × (net env (some (file_of hd is)) s ≡ some (0, s1))
      × (dequeue s1 ≡ some s2)
      × Holds s2 []
      × (s2.sent ≡ s.sent ++ (ms ++ stamp env s.fresh (net_lines is)))
net-dequeue env hd is s ms g hh ok h =
    let (s1, runs, holds, kept) = net_queues env hd is s ms g hh ok h in
    let (s2, sends, empty, sent) =
      dequeue_refines s1 (ms ++ stamp env s.fresh (net_lines is)) holds in
    (
      s1,
      s2,
      runs,
      sends,
      empty,
      sent ∙ ap (λ l. l ++ (ms ++ stamp env s.fresh (net_lines is))) kept,
    )
