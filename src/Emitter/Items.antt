-- ===== src/Emitter/Items.antt =====
-- The payload that emitter.py walks over: Python's dicts, lists, tuples and strings, nested.
use dd_agent.Prelude.{
  ℕ, ◌≡◌, refl, ap, Bool, true, false, ◌&&◌, Option, none, some, [], ◌∷◌, ltb, ◌==◌, Bool-cases,
  inl, inr, if◌then◌else◌, arith,
}
use dd_agent.Prelude.Text.{Text, Text-discrete}
use mathlib.Core.Logic.{ite}

-- A byte string, a unicode string of code points, or any other object, by a number.
pub data Value : Type 0 where
  str unicode : Text → Value
  other : ℕ → Value

-- An object, the dict by its entries in the order of iteritems. Keys are strings or other objects.
mutual
  pub data Item : Type 0 where
    scalar : Value → Item
    dict : Fields → Item
    list tuple : Items → Item

  pub data Items : Type 0 where
    nil : Items
    cons : Item → Items → Items

  pub data Fields : Type 0 where
    end : Fields
    field : Value → Item → Fields → Fields

abbrev is_ascii : Text → Bool
is_ascii [] = true
is_ascii (c ∷ s) = ltb c 128 && is_ascii s

abbrev pub same_text : Text → Text → Bool
same_text a b = ite (Text-discrete a b) true false

-- j == k, where a byte string equals a unicode string only if it is ASCII
unfoldable pub same_key : Value → Value → Bool
unfolding Text-discrete
same_key (str a) (str b) = same_text a b
same_key (unicode a) (unicode b) = same_text a b
same_key (str a) (unicode b) = is_ascii a && same_text a b
same_key (unicode a) (str b) = is_ascii b && same_text a b
same_key (other m) (other n) = m == n
same_key _ _ = false

-- newdict[newkey] = newval: a key that is there stays, and its value is replaced
unfoldable pub put_field : Value → Item → Fields → Fields
put_field k v end = field k v end
put_field k v (field j w fs) = if same_key j k then field j v fs else field j w (put_field k v fs)

-- d.get(key, None)
unfoldable pub get_field : Value → Fields → Option Item
get_field k end = none
get_field k (field j w fs) = if same_key j k then some w else get_field k fs

unfoldable pub append : Fields → Fields → Fields
append end gs = gs
append (field k v fs) gs = field k v (append fs gs)

-- No key is equal to a later one.
abbrev pub Follows : Value → Fields → Type 0
Follows j end = Unit
Follows j (field k v fs) = (same_key j k ≡ false) × Follows j fs

abbrev pub Distinct : Fields → Type 0
Distinct end = Unit
Distinct (field j w fs) = Follows j fs × Distinct fs

put_field-Follows :
    (j k : Value) (v : Item) (fs : Fields)
    → same_key j k ≡ false
    → Follows j fs
    → Follows j (put_field k v fs)
unfolding put_field
put_field-Follows j k v end e h = (e, tt)
put_field-Follows j k v (field i w fs) e h = ground (arith, put_field-Follows j k v fs e h.1)

pub put_field-Distinct :
    (k : Value) (v : Item) (fs : Fields) → Distinct fs → Distinct (put_field k v fs)
unfolding put_field
put_field-Distinct k v end h = (tt, tt)
put_field-Distinct k v (field j w fs) h = elim (Bool-cases (same_key j k)) [
  | inl e ↦ rw e h
  | inr e ↦ rw e (put_field-Follows j k v fs e h.0, put_field-Distinct k v fs h.1)
]

-- A key that no earlier one equals is put at the end.
Follows-append :
    (j k : Value) (v : Item) (acc fs : Fields)
    → Follows j (append acc (field k v fs))
    → same_key j k ≡ false
unfolding append
Follows-append j k v end fs h = h.0
Follows-append j k v (field i w acc) fs h = Follows-append j k v acc fs h.1

pub put_field_last :
    (k : Value) (v : Item) (acc fs : Fields)
    → Distinct (append acc (field k v fs))
    → put_field k v acc ≡ append acc (field k v end)
unfolding put_field append
put_field_last k v end fs h = refl
put_field_last k v (field j w acc) fs h =
    rw (Follows-append j k v acc fs h.0) (ap (field j w) (put_field_last k v acc fs h.1))

pub append_field :
    (k : Value) (v : Item) (acc fs : Fields)
    → append (append acc (field k v end)) fs ≡ append acc (field k v fs)
unfolding append
append_field k v end fs = refl
append_field k v (field j w acc) fs = ap (field j w) (append_field k v acc fs)

pub append_end : (fs : Fields) → append fs end ≡ fs
unfolding append
append_end end = refl
append_end (field j w fs) = ap (field j w) (append_end fs)
