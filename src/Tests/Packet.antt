-- ===== src/Tests/Packet.antt =====
-- aggregator.py: packets of each kind.
use dd_agent.Prelude.{
  true, ℕ, ◌+◌, ℤ, negsuc, ltb_ℤ, ◌&&◌, ◌≡◌, refl, none, some, [], ◌∷◌, ◌++◌, pos, ◌+ℤ◌, Bool,
  false,
}
use dd_agent.Prelude.Text.{Text, codes}
use dd_agent.Packet.Split.{has, split, int}
use dd_agent.Packet.Rejoin.{rejoin, data_of}
use dd_agent.Packet.Metric.{Floats, not_a_number}
use dd_agent.Packet.Event.{event_at, event_parts, parse_event_packet}
use dd_agent.Packet.Lengths.{plain_event, parts_of, event_at-plain_event}
use dd_agent.Packet.ServiceCheck.{parse_sc_packet}
use dd_agent.Packet.Lines.{lines}
use dd_agent.Packet.Submit.{Methods, Receiver, Reason, stopped, returned, submit_packets}

abbrev packet : Text
packet = codes "1|g|#env:dev:2|c"

data_of_test : data_of (split b':' packet) ≡ codes "1|g|#env:dev" ∷ codes "2|c" ∷ []
unfolding data_of rejoin split has
data_of_test = refl

-- A title with a bar in it.
event_test :
    parse_event_packet false (codes "_e{3,2}:a|b|hi|h:web|p:low")
    ≡ some (record (plain_event (codes "a|b") (codes "hi")) {
      hostname = some (codes "web");
      priority = some (codes "low");
    })
unfolding parse_event_packet ◌+ℤ◌
event_test = refl

event_at-plain_event_example :
    event_at false (codes "a|b" ++ b'|' ∷ (codes "hi" ++ codes "|h:web")) (pos 3) (pos 2)
    ≡ event_parts false (parts_of (some (codes "h:web"))) (plain_event (codes "a|b") (codes "hi"))
event_at-plain_event_example =
    event_at-plain_event false (codes "a|b") (codes "hi") b'|' (some (codes "h:web"))

-- Floats that are read as integers.
abbrev floats : Floats
floats = record {
  Float = ℤ;
  float = int;
  in_unit = λ x. ltb_ℤ x (pos 2) && ltb_ℤ (negsuc 0) x;
  one = pos 1;
}

check_test :
    parse_sc_packet floats false (codes "_sc|disk|1|d:7|h:web|m:full")
    ≡ some (record {
      check_name = codes "disk";
      status = pos 1;
      message = some (codes "full");
      timestamp = some (pos 7);
      hostname = some (codes "web");
      tags = none;
    })
unfolding parse_sc_packet int
check_test = refl

-- The methods count their calls.
abbrev methods : Methods ℤ
methods = record {
  State = ℕ;
  Failure = Bool;
  submit_metric = λ s a. returned (s + 1);
  event = λ s e. s + 100;
  service_check = λ s k. s + 10;
}

abbrev receiver : Receiver ℕ
receiver = record { state = 0; count = 0; event_count = 0; service_check_count = 0 }

submit_test :
    submit_packets floats methods false (codes "a:1|c:2|g\n\n_sc|disk|0\nb:x|c\nc:1|c") receiver
    ≡ stopped
        (Reason.packet not_a_number)
        (record receiver { state = 12; count = 1; service_check_count = 1 })
unfolding submit_packets has
submit_test = refl

-- A next line, 0x85, ends a line of a Unicode string only.
lines_test :
    (lines true false (b'a' ∷ 133 ∷ b'b' ∷ []) ≡ (b'a' ∷ []) ∷ (b'b' ∷ []) ∷ [])
    × (lines false false (b'a' ∷ 133 ∷ b'b' ∷ []) ≡ (b'a' ∷ 133 ∷ b'b' ∷ []) ∷ [])
unfolding lines
lines_test = (refl, refl)
