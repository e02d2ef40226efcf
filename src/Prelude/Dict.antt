-- ===== src/Prelude/Dict.antt =====
-- Python's `dict` as its items in insertion order, over a test of equality of keys.
use mathlib.Core.Bool.{Bool}
use mathlib.Core.Option.{Option, none, some}
use mathlib.Core.List.{List, [], ◌∷◌, ◌++◌}
use relay.Prelude.Tests.{if◌then◌else◌}

module _ {K V : Type 0} (same : K → K → Bool) where
  -- `items.get(key)`
  abbrev pub get : K → List (K × V) → Option V
  get key [] = none
  get key (item ∷ items) = if same item.0 key then some item.1 else get key items

  -- `items.get(key, otherwise)`
  abbrev pub get_or : V → K → List (K × V) → V
  get_or otherwise key [] = otherwise
  get_or otherwise key (item ∷ items) =
      if same item.0 key then item.1 else get_or otherwise key items

  -- `items[key] = value`
  abbrev pub put : K → V → List (K × V) → List (K × V)
  put key value [] = (key, value) ∷ []
  put key value (item ∷ items) =
      let rest = put key value items in
      if same item.0 key then (item.0, value) ∷ items else item ∷ rest

module _ {K V : Type 0} (same : K → K → Bool) where
  -- `items.setdefault(key, []).append(value)`
  abbrev pub gather : K → V → List (K × List V) → List (K × List V)
  gather key value [] = (key, value ∷ []) ∷ []
  gather key value (item ∷ items) =
      let rest = gather key value items in
      if same item.0 key then (item.0, item.1 ++ value ∷ []) ∷ items else item ∷ rest
