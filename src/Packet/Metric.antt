-- ===== src/Packet/Metric.antt =====
-- aggregator.py, parse_metric_packet. Floats and `float()` are those of Python: a parameter.
use dd_agent.Prelude.{Option, none, some, List, [], ◌∷◌, Bool, true, false, if◌then◌else◌, ◌==◌, ℤ}
use mathlib.Core.Logic.{ite}
use dd_agent.Prelude.Text.{Text, Text-discrete, codes}
use dd_agent.Prelude.Sort.{sort}
use dd_agent.Aggregator.Base.{lt_text}
use dd_agent.Packet.Split.{split, split_once, int}
use dd_agent.Packet.Rejoin.{data_of}

pub record Floats : Type 1 where
  pub Float : Type 0
  -- float(s); `none` is the ValueError
  pub float : Text → Option Float
  -- 0 <= x <= 1
  pub in_unit : Float → Bool
  pub one : Float

-- the exceptions: a packet or a value that cannot be read, and the ValueError of a sample rate, which
-- no handler catches
pub data Error : Type 0 where
  unparseable not_a_number value_error : Error

pub data Result {ℓ} (A : Type ℓ) : Type ℓ where
  ok : A → Result A
  err : Error → Result A

infixl 5 ◌>>=◌
abbrev pub ◌>>=◌ {ℓ κ} : {A : Type ℓ} {B : Type κ} → Result A → (A → Result B) → Result B
ok a >>= f = f a
err e >>= f = err e

pub data Value (F : Type 0) : Type 0 where
  text : Text → Value F
  whole : ℤ → Value F
  float : F → Value F

pub record Parsed (F : Type 0) : Type 0 where
  pub name : Text
  pub value : Value F
  pub metric_type : Text
  pub tags : Option (List Text)
  pub sample_rate : F

module _ (fs : Floats) where
  open fs use {Float, in_unit, one}

  -- a Set takes any text, every other type a number
  unfoldable pub cast : Text → Text → Result (Value Float)
  unfolding int Text-discrete
  cast metric_type raw =
      ite (Text-discrete metric_type (codes "s")) (ok (text raw)) (elim (int raw) [
        | some n ↦ ok (whole n)
        | none ↦ elim (fs.float raw) [ some x ↦ ok (float x) | none ↦ err not_a_number ]
      ])

  -- The loop over the optional parts: the tags and the sample rate. An empty part is an IndexError and
  -- a rate that is not between 0 and 1 an AssertionError: both end the loop with rate 1.
  unfoldable pub metadata :
      List Text → Option (List Text) → Float → Result (Option (List Text) × Float)
  unfolding split lt_text sort
  metadata [] tags rate = ok (tags, rate)
  metadata ([] ∷ ms) tags rate = ok (tags, one)
  metadata ((c ∷ cs) ∷ ms) tags rate = elim (c == b'@') [
    | true ↦ elim (fs.float cs) [
      | none ↦ err value_error
      | some x ↦ elim (in_unit x) [ true ↦ metadata ms tags x | false ↦ ok (tags, one) ]
    ]
    | false ↦ metadata ms (if c == b'#' then some (sort lt_text (split b',' cs)) else tags) rate
  ]

  -- value_and_metadata of one datum
  unfoldable pub parse_parts : Text → List Text → Result (Parsed Float)
  unfolding cast metadata
  parse_parts name (raw_value ∷ metric_type ∷ rest) = do
    value ← cast metric_type raw_value
    (tags, rate) ← metadata rest none one
    ok (record {
      name = name;
      value = value;
      metric_type = metric_type;
      tags = tags;
      sample_rate = rate;
    })
  parse_parts name parts = err unparseable

  unfoldable pub parse_data : Text → List Text → Result (List (Parsed Float))
  unfolding parse_parts
  parse_data name [] = ok []
  parse_data name (datum ∷ rest) = do
    p ← parse_parts name (split b'|' datum)
    ps ← parse_data name rest
    ok (p ∷ ps)

  unfoldable pub parse_metric_packet : Text → Result (List (Parsed Float))
  unfolding parse_data split_once data_of split
  parse_metric_packet packet = elim (split_once b':' packet) [
    | none ↦ err unparseable
    | some (name, rest) ↦ parse_data name (data_of (split b':' rest))
  ]
