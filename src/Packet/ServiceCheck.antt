-- ===== src/Packet/ServiceCheck.antt =====
-- aggregator.py, parse_sc_packet. `none` is its exception: every IndexError and ValueError becomes the
-- one that says that the packet is unparseable.
use dd_agent.Prelude.{Option, none, some, List, [], ◌∷◌, ℤ, Bool, if◌then◌else◌, ◌==◌}
use dd_agent.Prelude.Text.{Text, codes}
use dd_agent.Prelude.Sort.{sort}
use dd_agent.Aggregator.Base.{lt_text}
use dd_agent.Packet.Split.{split, split_once, int}
use dd_agent.Packet.Slice.{drop, replace, replace_from, rsplit_once, after_prefix, as_unicode}
use dd_agent.Packet.Metric.{Floats}

-- the dictionary `service_check`
pub record ParsedCheck (F : Type 0) : Type 0 where
  pub check_name : Text
  pub status : ℤ
  pub message : Option Text
  pub timestamp : Option F
  pub hostname : Option Text
  pub tags : Option (List Text)

-- First '\\n', then 'm\:' with a backslash.
unfoldable pub unescape_sc_content : Text → Text
unfolding replace_from
unescape_sc_content s =
    replace (b'm' ∷ 92 ∷ b':' ∷ []) (codes "m:") (replace (92 ∷ b'n' ∷ []) (10 ∷ []) s)

abbrev delimiter : Text → Text
delimiter metadata = elim (after_prefix (codes "m:") metadata) [
  | some rest ↦ codes "m:"
  | none ↦ codes "|m:"
]

-- meta, and the message where there is one
unfoldable pub split_message : Text → Text × Option Text
unfolding after_prefix rsplit_once unescape_sc_content
split_message metadata = elim (rsplit_once (delimiter metadata) metadata) [
  | none ↦ (metadata, none)
  | some (meta, message) ↦ (meta, some (unescape_sc_content message))
]

module _ (fs : Floats) where
  open fs use {Float}

  -- One part of the metadata; an empty one is an IndexError.
  unfoldable pub check_part : Text → ParsedCheck Float → Option (ParsedCheck Float)
  unfolding split sort lt_text
  check_part [] k = none
  check_part (c ∷ cs) k =
      let rest = drop 1 cs in
      if c == b'd'
      then elim (fs.float rest) [ none ↦ none | some x ↦ some (record k { timestamp = some x }) ]
      else if c == b'h'
      then some (record k { hostname = some rest })
      else if c == b'#'
      then some (record k { tags = some (sort lt_text (split b',' cs)) })
      else some k

  unfoldable pub check_parts : List Text → ParsedCheck Float → Option (ParsedCheck Float)
  unfolding check_part
  check_parts [] k = some k
  check_parts (m ∷ ms) k = elim (check_part m k) [ none ↦ none | some k' ↦ check_parts ms k' ]

  -- the metadata that is left without its message
  unfoldable pub check_meta : Bool → Text → ParsedCheck Float → Option (ParsedCheck Float)
  unfolding check_parts split
  check_meta decoded [] k = some k
  check_meta decoded (c ∷ cs) k = elim (as_unicode decoded (c ∷ cs)) [
    | none ↦ none
    | some meta ↦ check_parts (split b'|' meta) k
  ]

  unfoldable pub check_of : Bool → Text → Text → Text → Option (ParsedCheck Float)
  unfolding int split_message check_meta
  check_of decoded check_name status metadata = elim (int status) [
    | none ↦ none
    | some n ↦
        let (meta, message) = split_message metadata in
        check_meta decoded meta (record {
          check_name = check_name;
          status = n;
          message = message;
          timestamp = none;
          hostname = none;
          tags = none;
        })
  ]

  -- Without a third '|' there is no metadata.
  unfoldable pub parse_sc_packet : Bool → Text → Option (ParsedCheck Float)
  unfolding split_once check_of
  parse_sc_packet decoded packet = elim (split_once b'|' packet) [
    | none ↦ none
    | some (_, data_and_metadata) ↦ elim (split_once b'|' data_and_metadata) [
      | none ↦ none
      | some (check_name, rest) ↦ elim (split_once b'|' rest) [
        | none ↦ check_of decoded check_name rest []
        | some (status, metadata) ↦ check_of decoded check_name status metadata
      ]
    ]
  ]
