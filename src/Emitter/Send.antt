-- ===== src/Emitter/Send.antt =====
-- emitter.py: http_emitter and post_headers. The serializer, zlib, md5 and the version are parameters;
-- what goes wrong with a request is caught by the code and only logged, so a request is a value.
use dd_agent.Prelude.{ℕ, Bool, true, false, Option, none, some, [], ◌∷◌, ◌++◌, if◌then◌else◌}
use dd_agent.Prelude.Dict.{Dict, get}
use dd_agent.Prelude.Text.{Text, Text-discrete, codes}
use dd_agent.Prelude.Options.{◌>>=◌}
use dd_agent.Emitter.Items.{
  str, unicode, other, Item, scalar, dict, list, tuple, nil, Fields, end, get_field,
}
use dd_agent.Emitter.Sanitize.{
  Unicode, remove_control_chars, remove_undecodable_chars, sanitize_payload,
}

-- What json.dumps does: a text, UnicodeDecodeError, RuntimeError or any other exception.
pub data Dumped : Type 0 where
  text : Text → Dumped
  undecodable runtime_error other_error : Dumped

pub record Services : Type 0 where
  pub unicode_data : Unicode
  pub dumps : Item → Dumped
  pub compress : Text → Text
  pub md5 : Text → Text
  pub version : Text
  -- bool(x) of an object that is no string and no container
  pub truth : ℕ → Bool
  -- '{0}'.format(x)
  pub shown : Item → Text

pub record Request : Type 0 where
  pub url : Text
  pub body : Text
  pub headers : Dict Text Text

pub data Error : Type 0 where
  key_error no_api_key : Error

pub data Outcome : Type 0 where
  raised : Error → Outcome
  returned : Option Request → Outcome

module _ (s : Services) where
  abbrev resanitize : Option Item → Dumped
  resanitize none = other_error
  resanitize (some item) = s.dumps item

  -- the second attempt, behind the handler of UnicodeDecodeError
  unfoldable pub redump : Item → Dumped → Dumped
  redump newmessage undecodable =
      resanitize (sanitize_payload (remove_undecodable_chars s.unicode_data) newmessage)
  redump newmessage d = d

  abbrev pub redump_sanitized : Option Item → Dumped
  redump_sanitized none = other_error
  redump_sanitized (some newmessage) = redump newmessage (s.dumps newmessage)

  unfoldable pub first_dump : Item → Dumped → Dumped
  unfolding redump
  first_dump message undecodable =
      redump_sanitized (sanitize_payload (remove_control_chars s.unicode_data) message)
  first_dump message d = d

  -- payload, or the exception that reaches the outer handlers
  unfoldable pub dump_message : Item → Dumped
  unfolding first_dump
  dump_message message = first_dump message (s.dumps message)

  -- bool(x)
  abbrev pub truthy : Item → Bool
  truthy (scalar (str [])) = false
  truthy (scalar (unicode [])) = false
  truthy (scalar (other n)) = s.truth n
  truthy (dict end) = false
  truthy (list nil) = false
  truthy (tuple nil) = false
  truthy _ = true

  abbrev pub headers_of : Text → Text → Dict Text Text
  headers_of payload version =
      (codes "User-Agent", codes "Datadog Agent/" ++ version)
      ∷ (codes "Content-Type", codes "application/json")
      ∷ (codes "Content-Encoding", codes "deflate")
      ∷ (codes "Accept", codes "text/html, */*")
      ∷ (codes "Content-MD5", s.md5 payload)
      ∷ (codes "DD-Collector-Version", s.version)
      ∷ []

  -- none: agentConfig has no version (KeyError)
  unfoldable pub post_headers : Dict Text Text → Text → Option (Dict Text Text)
  post_headers agent_config payload = do
    version ← get Text-discrete agent_config (codes "version")
    some (headers_of payload version)

  -- What requests.post is called with, if it is.
  unfoldable pub post : Dict Text Text → Text → Text → Outcome
  unfolding post_headers
  post agent_config url zipped = returned do
    headers ← post_headers agent_config zipped
    some (record { url = url; body = zipped; headers = headers })

  unfoldable pub send : Dict Text Text → Text → Text → Option Item → Text → Outcome
  unfolding post
  send agent_config url endpoint none payload = raised no_api_key
  send agent_config url endpoint (some api_key) payload =
      if truthy api_key
      then post agent_config
          (url ++ (codes "/intake/" ++ (endpoint ++ (codes "?api_key=" ++ s.shown api_key))))
          (s.compress payload)
      else raised no_api_key

  abbrev pub api_key_of : Fields → Option Item
  api_key_of message = get_field (str (codes "apiKey")) message

  unfoldable pub deliver : Dict Text Text → Text → Text → Fields → Dumped → Outcome
  unfolding send
  deliver agent_config url endpoint message (text payload) =
      send agent_config url endpoint (api_key_of message) payload
  deliver agent_config url endpoint message _ = returned none

  abbrev http_emitter_at : Fields → Dict Text Text → Text → Option Text → Outcome
  http_emitter_at message agent_config endpoint none = raised key_error
  http_emitter_at message agent_config endpoint (some url) =
      deliver agent_config url endpoint message (dump_message (dict message))

  unfoldable pub http_emitter : Fields → Dict Text Text → Text → Outcome
  unfolding deliver dump_message
  http_emitter message agent_config endpoint =
      http_emitter_at message agent_config endpoint
        (get Text-discrete agent_config (codes "dd_url"))
