-- ===== src/Packet/Submit.antt =====
-- aggregator.py, Aggregator.submit_packets. The methods of the object that it calls are an interface,
-- which both aggregators implement; the counters that it writes itself stand beside their state.
use dd_agent.Prelude.{ℕ, ◌+◌, ◌≡◌, refl, ap, ◌∙◌, Option, none, some, List, [], ◌∷◌, ◌++◌, Bool}
use dd_agent.Prelude.Text.{Text, codes}
use dd_agent.Aggregator.MagicTags.{extract_magic_tags}
use dd_agent.Packet.Slice.{after_prefix}
use dd_agent.Packet.Metric.{Floats, Value, Parsed, parse_metric_packet, ok, err}
use dd_agent.Packet.Metric
use dd_agent.Packet.Event.{ParsedEvent, parse_event_packet}
use dd_agent.Packet.ServiceCheck.{ParsedCheck, parse_sc_packet}
use dd_agent.Packet.Lines.{lines, packets_of, packets_of-append}

-- the arguments of submit_metric
pub record Arguments (F : Type 0) : Type 0 where
  pub name : Text
  pub value : Value F
  pub mtype : Text
  pub tags : Option (List Text)
  pub hostname : Option Text
  pub device_name : Option Text
  pub sample_rate : F

-- A method of the object returns with the state that it leaves, or raises and leaves it.
pub data Effect (S : Type 0) (E : Type 0) : Type 0 where
  returned : S → Effect S E
  raised : E → S → Effect S E

pub record Methods (F : Type 0) : Type 1 where
  pub State : Type 0
  pub Failure : Type 0
  pub submit_metric : State → Arguments F → Effect State Failure
  pub event : State → ParsedEvent → State
  pub service_check : State → ParsedCheck F → State

-- self.count, self.event_count and self.service_check_count, beside the state of the methods
pub record Receiver (S : Type 0) : Type 0 where
  pub state : S
  pub count : ℕ
  pub event_count : ℕ
  pub service_check_count : ℕ

pub data Reason (E : Type 0) : Type 0 where
  unparseable : Reason E
  packet : Metric.Error → Reason E
  no_tag : Reason E
  method : E → Reason E

pub data Outcome (S : Type 0) (E : Type 0) : Type 0 where
  done : Receiver S → Outcome S E
  stopped : Reason E → Receiver S → Outcome S E

infixl 5 ◌>>=◌
abbrev pub ◌>>=◌ : {S E : Type 0} → Outcome S E → (Receiver S → Outcome S E) → Outcome S E
done r >>= f = f r
stopped e r >>= f = stopped e r

module _ (fs : Floats) (methods : Methods fs.Float) where
  open fs use {Float}
  open methods use {State, Failure}

  -- the tuple of a parsed datum, with its magic tags taken out, or the ValueError of that
  unfoldable pub arguments_of : Parsed Float → Option (Arguments Float)
  unfolding extract_magic_tags
  arguments_of p = elim (extract_magic_tags p.tags) [
    | none ↦ none
    | some (hostname, device_name, tags) ↦ some (record {
      name = p.name;
      value = p.value;
      mtype = p.metric_type;
      tags = tags;
      hostname = hostname;
      device_name = device_name;
      sample_rate = p.sample_rate;
    })
  ]

  -- the loop over parsed_packets
  unfoldable pub submit_parsed : List (Parsed Float) → Receiver State → Outcome State Failure
  unfolding arguments_of
  submit_parsed [] r = done r
  submit_parsed (p ∷ ps) r = elim (arguments_of p) [
    | none ↦ stopped no_tag r
    | some a ↦ elim (methods.submit_metric r.state a) [
      | returned s ↦ submit_parsed ps (record r { state = s })
      | raised e s ↦ stopped (method e) (record r { state = s })
    ]
  ]

  unfoldable pub submit_event : Bool → Text → Receiver State → Outcome State Failure
  unfolding parse_event_packet
  submit_event decoded line r = elim (parse_event_packet decoded line) [
    | none ↦ stopped unparseable r
    | some e ↦ done (record r { state = methods.event r.state e; event_count = r.event_count + 1 })
  ]

  unfoldable pub submit_service_check : Bool → Text → Receiver State → Outcome State Failure
  unfolding parse_sc_packet
  submit_service_check decoded line r = elim (parse_sc_packet fs decoded line) [
    | none ↦ stopped unparseable r
    | some k ↦ done (record r {
      state = methods.service_check r.state k;
      service_check_count = r.service_check_count + 1;
    })
  ]

  -- The whole packet is parsed, and counted, before its first datum is submitted.
  unfoldable pub submit_datums : Text → Receiver State → Outcome State Failure
  unfolding submit_parsed parse_metric_packet
  submit_datums line r = elim (parse_metric_packet fs line) [
    | err e ↦ stopped (packet e) r
    | ok ps ↦ submit_parsed ps (record r { count = r.count + 1 })
  ]

  -- one line that is not blank
  unfoldable pub submit_line : Bool → Text → Receiver State → Outcome State Failure
  unfolding submit_event submit_service_check submit_datums after_prefix
  submit_line decoded line r = elim (after_prefix (codes "_e") line) [
    | some _ ↦ submit_event decoded line r
    | none ↦ elim (after_prefix (codes "_sc") line) [
      | some _ ↦ submit_service_check decoded line r
      | none ↦ submit_datums line r
    ]
  ]

  unfoldable pub submit_lines : Bool → List Text → Receiver State → Outcome State Failure
  unfolding submit_line
  submit_lines decoded [] r = done r
  submit_lines decoded (l ∷ ls) r = submit_line decoded l r >>= submit_lines decoded ls

  unfoldable pub submit_packets : Bool → Text → Receiver State → Outcome State Failure
  unfolding submit_lines lines
  submit_packets decoded packets r = submit_lines decoded (packets_of decoded packets) r

  bind_assoc :
      (o : Outcome State Failure) (f g : Receiver State → Outcome State Failure)
      → (o >>= λ r. f r >>= g) ≡ (o >>= f >>= g)
  bind_assoc (done r) f g = refl
  bind_assoc (stopped e r) f g = refl

  submit_lines-append :
      (decoded : Bool) (xs ys : List Text) (r : Receiver State)
      → submit_lines decoded (xs ++ ys) r ≡ (submit_lines decoded xs r >>= submit_lines decoded ys)
  unfolding submit_lines
  submit_lines-append decoded [] ys r = refl
  submit_lines-append decoded (x ∷ xs) ys r =
      ap (λ (f : Receiver State → Outcome State Failure). submit_line decoded x r >>= f)
        (λ i r'. submit_lines-append decoded xs ys r' i)
      ∙ bind_assoc (submit_line decoded x r) (submit_lines decoded xs) (submit_lines decoded ys)

  -- Two payloads joined by a line feed are submitted one after the other.
  pub submit_packets-append :
      (decoded : Bool) (a b : Text) (r : Receiver State)
      → submit_packets decoded (a ++ 10 ∷ b) r
        ≡ (submit_packets decoded a r >>= submit_packets decoded b)
  unfolding submit_packets
  submit_packets-append decoded a b r =
      ap (λ ls. submit_lines decoded ls r) (packets_of-append decoded a b)
      ∙ submit_lines-append decoded (packets_of decoded a) (packets_of decoded b) r
