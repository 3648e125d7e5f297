-- ===== src/Bridge/Lines.antt =====
-- The way of whole lines through the bridge: the tags in front of a blank, the fields behind it.
use linux_system_monitoring.Base.{
  ℕ, suc, ◌+◌, ◌≡◌, ◌≢◌, ◌<◌, refl, ap, ◌∙◌, arith, Bool, true, false, none, some, List, [], ◌∷◌,
  ◌++◌, ◌==◌, map, All, length, take-append, drop-append, lt→ltb, Bytes, codes,
}
use linux_system_monitoring.Escape.Reading.{ends_in_backslash}
use linux_system_monitoring.Bridge.Hostname.{add_hostname_to_msg}
use linux_system_monitoring.Bridge.Separator.{unescaped_space}
use linux_system_monitoring.Bridge.Tagging.{add_hostname_to_msg_lem}
use linux_system_monitoring.Bridge.Forwarding.{Broker, Wait, running, process_messages}
use linux_system_monitoring.Bridge.Forwarding.Delivery.{
  received, delivered, thread_after, outcome, process_messages_lem,
}

-- Behind text with no bare whitespace, which does not end in a backslash, the next whitespace counts.
pub unescaped_space-append :
    (p : Bool) (m rest : Bytes)
    → unescaped_space p m ≡ none
    → ends_in_backslash p m ≡ false
    → unescaped_space p (m ++ (b' ' ∷ rest)) ≡ some (length m)
unescaped_space-append p [] rest h e = rw e
unescaped_space-append p (c ∷ cs) rest h e =
    ground (arith, unescaped_space-append (c == b'\\') cs rest)

pub ends_in_backslash-append :
    (p : Bool) (m s : Bytes)
    → ends_in_backslash p (m ++ s) ≡ ends_in_backslash (ends_in_backslash p m) s
ends_in_backslash-append p [] s = refl
ends_in_backslash-append p (c ∷ cs) s = ends_in_backslash-append (c == b'\\') cs s

pub unescaped_space-word :
    (p : Bool) (s : Bytes) → All (λ c. c ≢ b' ') s → unescaped_space p s ≡ none
unescaped_space-word p [] h = refl
unescaped_space-word p (c ∷ cs) h = ground (arith, h.0, unescaped_space-word (c == b'\\') cs h.1)

pub record Line : Type 0 where
  pub tags : Bytes
  pub fields : Bytes

abbrev pub text : Line → Bytes
text l = l.tags ++ (b' ' ∷ l.fields)

abbrev pub with_host : Bytes → Line → Bytes
with_host hostname l = l.tags ++ ((codes ",host=" ++ hostname) ++ (b' ' ∷ l.fields))

-- The first bare blank is the one behind the tags, and there is room for the host name.
pub record IsLine (hostname : Bytes) (l : Line) : Type 0 where
  pub no_space : unescaped_space false l.tags ≡ none
  pub no_backslash : ends_in_backslash false l.tags ≡ false
  pub fits : length (text l) + length (codes ",host=" ++ hostname) < 1024

pub add_hostname_to_msg-line :
    (hostname : Bytes) (l : Line)
    → IsLine hostname l
    → add_hostname_to_msg hostname (text l) ≡ with_host hostname l
add_hostname_to_msg-line hostname l ok =
    rw
      (
        add_hostname_to_msg_lem hostname (text l),
        lt→ltb _ _ ok.fits,
        unescaped_space-append false l.tags l.fields ok.no_space ok.no_backslash,
      )
      (rw (take-append l.tags (b' ' ∷ l.fields), drop-append l.tags (b' ' ∷ l.fields)))

module _ (b : Broker) (accepts : (n : ℕ) → b.accepts n ≡ true) (hostname : Bytes) where
  delivered-lines :
      (ls : List Line) (n : ℕ)
      → All (IsLine hostname) ls
      → delivered b hostname (map (λ l. some (text l)) ls) n ≡ map (with_host hostname) ls
  delivered-lines [] n ok = refl
  delivered-lines (l ∷ ls) n (ok, oks) =
      rw (accepts n, add_hostname_to_msg-line hostname l ok, delivered-lines ls (suc n) oks)

  thread_after-lines :
      (ls : List Line) (n : ℕ) → thread_after b (map (λ l. some (text l)) ls) n ≡ running
  thread_after-lines [] n = refl
  thread_after-lines (l ∷ ls) n = rw (accepts n, thread_after-lines ls (suc n))

  -- However lines are spread over the rounds, each is published with the host name behind its tags.
  pub process_messages-lines :
      (ws : List Wait) (ls : List Line) (published : List Bytes)
      → received ws ≡ map (λ l. some (text l)) ls
      → All (IsLine hostname) ls
      → process_messages b hostname ws published
        ≡ (running, published ++ map (with_host hostname) ls)
  process_messages-lines ws ls published got ok =
      process_messages_lem b hostname ws published
      ∙ ap (λ rs. outcome b hostname rs published) got
      ∙ rw (thread_after-lines ls (length published), delivered-lines ls (length published) ok)
