-- ===== src/Scheduling/Sessions.antt =====
-- `decompose_minutes` of backend/app/scheduling/solver.py. The lengths asked for are naturals; the
-- chunks are integers, since the last step subtracts.
pub mod Lengths
use relay.Prelude.{
  ℕ, zero, suc, ◌+◌, ◌-◌, min, Option, none, some, List, [], ◌∷◌, map, ltb, leb, if◌then◌else◌,
}
use relay.Prelude.Int.{ℤ, pos, sub_ℕ}

abbrev pub slot_minutes : ℕ
slot_minutes = 15

abbrev pub map_some : ℕ → Option (List ℕ) → Option (List ℕ)
map_some chunk none = none
map_some chunk (some chunks) = some (chunk ∷ chunks)

-- The `while` loop and the remainder, with fuel; `none` means that it does not end, which happens
-- at a target of 0 alone.
unfoldable pub take_chunks : ℕ → ℕ → ℕ → Option (List ℕ)
take_chunks zero target remaining = none
take_chunks (suc fuel) target remaining =
    let more = map_some target (take_chunks fuel target (remaining - target)) in
    if ltb target remaining then more else some (if ltb 0 remaining then remaining ∷ [] else [])

-- The last two chunks, when the last one is shorter than a slot: merged, or minutes borrowed.
unfoldable pub settle : ℕ → List ℕ → List ℤ
settle maximum [] = []
settle maximum (a ∷ []) = pos a ∷ []
settle maximum (a ∷ b ∷ []) =
    if ltb b slot_minutes
    then (if leb (a + b) maximum
        then pos (a + b) ∷ []
        else sub_ℕ a (slot_minutes - b) ∷ pos (b + (slot_minutes - b)) ∷ [])
    else pos a ∷ pos b ∷ []
settle maximum (a ∷ b ∷ c ∷ rest) = pos a ∷ settle maximum (b ∷ c ∷ rest)

abbrev pub settle_all : ℕ → Option (List ℕ) → Option (List ℤ)
settle_all maximum none = none
settle_all maximum (some chunks) = some (settle maximum chunks)

unfoldable pub decompose_minutes : ℕ → ℕ → ℕ → Option (List ℤ)
unfolding take_chunks settle
decompose_minutes zero preferred maximum = some []
decompose_minutes (suc n) preferred maximum =
    settle_all maximum (take_chunks (suc (suc n)) (min preferred maximum) (suc n))
