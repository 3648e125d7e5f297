-- ===== src/Tests/Bridging.antt =====
-- The bridge.
use linux_system_monitoring.Base.{
  ◌+◌, ◌≡◌, false, none, some, List, [], ◌∷◌, ◌++◌, length, ltb, if◌then◌else◌, Bytes, codes,
}
use linux_system_monitoring.Bridge.Hostname.{add_hostname_to_msg}
use linux_system_monitoring.Bridge.Separator.{unescaped_space}
use linux_system_monitoring.Bridge.Tagging.{insert_tag, add_hostname_to_msg_lem}
use linux_system_monitoring.Bridge.Forwarding.{Broker, Wait, process_messages}
use linux_system_monitoring.Bridge.Forwarding.Delivery.{outcome, received, process_messages_lem}

abbrev line : Bytes
line = codes "cpu,name=a\\ b load=1 7"

add_hostname_to_msg_lem_example : add_hostname_to_msg (codes "pi0") line ≡ (
    if ltb (length line + length (codes ",host=" ++ codes "pi0")) 1024
    then insert_tag (codes "pi0") line (unescaped_space false line)
    else line)
add_hostname_to_msg_lem_example = add_hostname_to_msg_lem (codes "pi0") line

-- The broker takes two messages.
abbrev broker : Broker
broker = record { accepts = λ n. ltb n 2 }

abbrev rounds : List Wait
rounds = Wait.ready (some line ∷ some line ∷ []) ∷ Wait.ready (some line ∷ none ∷ []) ∷ []

process_messages_lem_example :
    process_messages broker (codes "pi0") rounds []
    ≡ outcome broker (codes "pi0") (received rounds) []
process_messages_lem_example = process_messages_lem broker (codes "pi0") rounds []
