-- ===== src/Dogstream/Check.antt =====
-- checks/datadog.py, Dogstream.check and Dogstreams.check: the lines that the reader of the file gives
-- are parsed, and the outputs of all streams are joined.
use dd_agent.Prelude.{ℕ, Option, none, some, List, [], ◌∷◌, ◌++◌}
use dd_agent.Dogstream.Groups.{Value, Floats, aggregate}
use dd_agent.Dogstream.Parser.{Event, Parsed, Conversions, Dogstream, parse_lines}

-- The keys "dogstream" and "dogstreamEvents" of an output, which may be missing.
pub record Report (F : Type 0) : Type 0 where
  pub dogstream : Option (List (Value F))
  pub dogstream_events : Option (List Event)

-- if self._events
abbrev or_missing : {A : Type 0} → List A → Option (List A)
or_missing [] = none
or_missing (a ∷ as') = some (a ∷ as')

module _ (fs : Floats) {R : Type 0} (conv : Conversions R fs.Float) where
  unfoldable pub check :
      ℕ → ℕ → List (Parsed R) → Dogstream fs.Float → Report fs.Float × Dogstream fs.Float
  unfolding aggregate parse_lines
  check now freq lines d =
      let d' = parse_lines conv now (record d { values = []; events = []; freq = freq }) lines in
      (record { dogstream = aggregate fs d'.values; dogstream_events = or_missing d'.events }, d')

-- output[k].extend(result[k]), or output[k] = result[k]
abbrev pub extend : {A : Type 0} → Option (List A) → Option (List A) → Option (List A)
extend none result = result
extend (some old) none = some old
extend (some old) (some new) = some (old ++ new)

-- Dogstreams.check: the results of the streams; none is one that has raised, which is skipped
unfoldable pub check_all : {F : Type 0} → Report F → List (Option (Report F)) → Report F
check_all output [] = output
check_all output (none ∷ results) = check_all output results
check_all output (some r ∷ results) =
    check_all
      (record {
        dogstream = extend output.dogstream r.dogstream;
        dogstream_events = extend output.dogstream_events r.dogstream_events;
      })
      results
