-- ===== src/Emitter/Sanitize.antt =====
-- emitter.py: remove_control_chars, remove_undecodable_chars and sanitize_payload.
-- unicodedata.category and the UTF-8 decoder of Python are parameters.
use dd_agent.Prelude.{ℕ, Bool, not, ◌&&◌, ◌||◌, Option, none, some, [], ◌∷◌, keep, leb, ltb}
use dd_agent.Prelude.Text.{Text}
use dd_agent.Prelude.Options.{◌>>=◌}
use dd_agent.Emitter.Items.{
  Value, str, unicode, other, Item, scalar, dict, list, tuple, Items, nil, cons, Fields, end, field,
  put_field,
}

-- What the functions use of Python.
pub record Unicode : Type 0 where
  -- whether the category of a code point is Cc or Cf
  pub is_control : ℕ → Bool
  -- s.decode('utf8'), none for UnicodeDecodeError
  pub decode : Text → Option Text
  -- s.decode('utf8', errors='ignore')
  pub decode_ignore : Text → Text

-- control_chars: range(0, 32) + range(127, 160)
abbrev pub is_control_byte : ℕ → Bool
is_control_byte c = ltb c 32 || (leb 127 c && ltb c 160)

-- ''.join of the characters of a unicode string: a byte string where there are none
unfoldable pub joined : Text → Value
joined [] = str []
joined (c ∷ s) = unicode (c ∷ s)

module _ (u : Unicode) where
  -- none: sanitized is read, but no branch has assigned it (UnboundLocalError)
  unfoldable pub remove_control_chars : Value → Option Value
  unfolding joined
  remove_control_chars (str s) = some (str (keep (λ c. not (is_control_byte c)) s))
  remove_control_chars (unicode s) = some (joined (keep (λ c. not (u.is_control c)) s))
  remove_control_chars (other n) = none

  -- sanitized where the decoding of s gave what is named
  abbrev decoded : Text → Option Text → Value
  decoded s (some _) = str s
  decoded s none = unicode (u.decode_ignore s)

  unfoldable pub remove_undecodable_chars : Value → Option Value
  remove_undecodable_chars (str s) = some (decoded s (u.decode s))
  remove_undecodable_chars (unicode s) = some (unicode s)
  remove_undecodable_chars (other n) = some (other n)

module _ (sanitize_func : Value → Option Value) where
  -- `none` where sanitize_func raises.
  unfoldable mutual
    pub sanitize_payload : Item → Option Item
    sanitize_payload (dict fs) = do newdict ← sanitize_fields fs end; some (dict newdict)
    sanitize_payload (list xs) = do newlist ← sanitize_items xs; some (list newlist)
    sanitize_payload (tuple xs) = do newlist ← sanitize_items xs; some (tuple newlist)
    sanitize_payload (scalar (other n)) = some (scalar (other n))
    sanitize_payload (scalar (str s)) = do s' ← sanitize_func (str s); some (scalar s')
    sanitize_payload (scalar (unicode s)) = do s' ← sanitize_func (unicode s); some (scalar s')

    pub sanitize_items : Items → Option Items
    sanitize_items nil = some nil
    sanitize_items (cons listitem item) = do
      x ← sanitize_payload listitem
      newlist ← sanitize_items item
      some (cons x newlist)

    -- the loop over the entries, with newdict
    pub sanitize_fields : Fields → Fields → Option Fields
    sanitize_fields end newdict = some newdict
    sanitize_fields (field k v fs) newdict = do
      newval ← sanitize_payload v
      newkey ← sanitize_func k
      sanitize_fields fs (put_field newkey newval newdict)
