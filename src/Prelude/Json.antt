-- ===== src/Prelude/Json.antt =====
-- What `json.loads` returns: the values that the services validate. A `float` carries the text
-- that `repr` prints; a `dict` is the list of its items, whose keys are distinct.
use Prim.Native.Nat.{ℕ}
use mathlib.Core.Bool.{Bool, true, false, not, ◌||◌}
use mathlib.Core.Option.{Option, none, some}
use mathlib.Core.List.{List, [], ◌∷◌}
use minisserver_compose.Prelude.Tests.{if◌then◌else◌}
use minisserver_compose.Prelude.Texts.{Text, codes, text_eq}
use minisserver_compose.Prelude.Int.{ℤ, pos}

mutual
  pub data Json : Type 0 where
    null : Json
    bool : Bool → Json
    int : ℤ → Json
    float : Text → Json
    str : Text → Json
    array : Items → Json
    object : Fields → Json

  pub data Items : Type 0 where
    nil : Items
    cons : Json → Items → Items

  pub data Fields : Type 0 where
    end : Fields
    field : Text → Json → Fields → Fields

abbrev pub items : Items → List Json
items nil = []
items (cons x xs) = x ∷ items xs

abbrev pub keys : Fields → List Text
keys end = []
keys (field k v fs) = k ∷ keys fs

abbrev pub values : Fields → List Json
values end = []
values (field k v fs) = v ∷ values fs

-- `d.get(k)`, where a missing key and a value of `None` are told apart.
unfoldable pub get : Text → Fields → Option Json
get k end = none
get k (field j v fs) = if text_eq j k then some v else get k fs

-- `d.get(k)`, which gives `None` for both.
abbrev pub get_value : Text → Fields → Json
get_value k fs = elim (get k fs) [ none ↦ null | some v ↦ v ]

-- The truth value that Python gives to a value.
abbrev pub is_truthy : Json → Bool
is_truthy null = false
is_truthy (bool b) = b
is_truthy (int (pos ℕ.zero)) = false
is_truthy (int _) = true
is_truthy (float t) = not (text_eq t (codes "0.0") || text_eq t (codes "-0.0"))
is_truthy (str []) = false
is_truthy (str (c ∷ s)) = true
is_truthy (array nil) = false
is_truthy (array (cons x xs)) = true
is_truthy (object end) = false
is_truthy (object (field k v fs)) = true
