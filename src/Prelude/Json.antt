-- ===== src/Prelude/Json.antt =====
-- The values that Python's json.dumps writes: the dicts and lists that the program builds.
use mathlib.Core.List.{List, [], ◌∷◌}
use mathlib.Core.Bool.{Bool, true, false, ◌&&◌, ◌||◌}
use mathlib.Core.Option.{Option, none, some}
use Prim.Native.Nat.{ℕ}
use indian_sim_sms_gateway.Prelude.Int.{ℤ}
use indian_sim_sms_gateway.Prelude.Text.{Text, text_eq}
use indian_sim_sms_gateway.Prelude.Tests.{if◌then◌else◌}

-- `instant` is a float number of seconds, counted in ticks.
mutual
  pub data Json : Type 0 where
    string : Text → Json
    number : ℤ → Json
    instant : ℕ → Json
    boolean : Bool → Json
    array : Elements → Json
    object : Members → Json

  pub data Elements : Type 0 where
    end : Elements
    element : Json → Elements → Elements

  pub data Members : Type 0 where
    close : Members
    member : Text → Json → Members → Members

abbrev pub elements : List Json → Elements
elements [] = end
elements (j ∷ js) = element j (elements js)

abbrev pub members : List (Text × Json) → Members
members [] = close
members ((k, j) ∷ ms) = member k j (members ms)

-- A list and a dict as values.
abbrev pub json_list : List Json → Json
json_list js = array (elements js)

abbrev pub json_dict : List (Text × Json) → Json
json_dict ms = object (members ms)

-- `d.get(k)` on what json.loads read
abbrev pub get_member : Text → Members → Option Json
get_member k close = none
get_member k (member j v ms) = if text_eq j k then some v else get_member k ms

-- Every key of the dict is one of these.
abbrev pub is_one_of : Text → List Text → Bool
is_one_of k [] = false
is_one_of k (j ∷ js) = text_eq j k || is_one_of k js

abbrev pub keys_among : List Text → Members → Bool
keys_among ks close = true
keys_among ks (member k v ms) = is_one_of k ks && keys_among ks ms

abbrev pub as_text : Option Json → Option Text
as_text (some (string s)) = some s
as_text _ = none

abbrev pub as_number : Option Json → Option ℤ
as_number (some (number n)) = some n
as_number _ = none

abbrev pub as_instant : Option Json → Option ℕ
as_instant (some (instant t)) = some t
as_instant _ = none
