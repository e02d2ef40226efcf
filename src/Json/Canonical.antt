-- ===== src/Json/Canonical.antt =====
-- `exact_json` of backend/app/services/approvals.py forgets the order of a dict's keys.
use relay.Prelude.{
  ℕ, ◌≡◌, ◌≢◌, refl, sym, ◌∙◌, true, false, List, [], ◌∷◌, String, arith, Bool-cases, inl, inr,
}
use relay.Json.{
  Json, Fields, field, obj, end, codes, codes_before, Printed, insert_printed, exact_json,
  sort_fields,
}

codes_before_asymm : (a b : List ℕ) → codes_before a b ≡ true → codes_before b a ≡ false
unfolding codes_before
codes_before_asymm [] (c ∷ cs) h = refl
codes_before_asymm [] [] h = cc
codes_before_asymm (b ∷ bs) [] h = cc
codes_before_asymm (b ∷ bs) (c ∷ cs) h = ground (arith, codes_before_asymm bs cs)

codes_before_trichotomy :
    (a b : List ℕ) → codes_before a b ≡ false → codes_before b a ≡ false → a ≡ b
unfolding codes_before
codes_before_trichotomy [] (c ∷ cs) h k = cc
codes_before_trichotomy [] [] h k = refl
codes_before_trichotomy (b ∷ bs) [] h k = cc
codes_before_trichotomy (b ∷ bs) (c ∷ cs) h k = ground (arith, codes_before_trichotomy bs cs)

codes_before_trans :
    (a b c : List ℕ) → codes_before a b ≡ true → codes_before b c ≡ true → codes_before a c ≡ true
unfolding codes_before
codes_before_trans [] [] c h k = cc
codes_before_trans [] (y ∷ b) [] h k = cc
codes_before_trans [] (y ∷ b) (z ∷ c) h k = refl
codes_before_trans (x ∷ a) [] c h k = cc
codes_before_trans (x ∷ a) (y ∷ b) [] h k = cc
codes_before_trans (x ∷ a) (y ∷ b) (z ∷ c) h k = ground (arith, codes_before_trans a b c)

-- The smaller key first or last: the same list.
insert_printed_comm_of_before :
    (j k : List ℕ) (v w : List ℕ) (l : Printed)
    → codes_before j k ≡ true
    → insert_printed k v (insert_printed j w l) ≡ insert_printed j w (insert_printed k v l)
unfolding insert_printed
insert_printed_comm_of_before j k v w [] h = ground (arith, codes_before_asymm j k h)
insert_printed_comm_of_before j k v w ((i, u) ∷ l) h = ground (
  arith,
  codes_before_asymm j k h,
  codes_before_trans i j k,
  insert_printed_comm_of_before j k v w l h,
)

insert_printed_comm :
    (j k : List ℕ) (v w : List ℕ) (l : Printed)
    → j ≢ k
    → insert_printed k v (insert_printed j w l) ≡ insert_printed j w (insert_printed k v l)
insert_printed_comm j k v w l differ = elim (Bool-cases (codes_before j k)) [
  | inl before ↦ insert_printed_comm_of_before j k v w l before
  | inr after ↦ elim (Bool-cases (codes_before k j)) [
    | inl before ↦ sym (insert_printed_comm_of_before k j w v l before)
    | inr neither ↦ absurd (differ (codes_before_trichotomy j k after neither))
  ]
]

-- Two dicts with the same items, whose keys may have been set in another order; `update` compares
-- values as `exact_json` does, so the order of keys in nested dicts is free as well.
pub data SameItems : Fields → Fields → Type 0 where
  same_end : SameItems end end
  update :
      (k : String) {v w : Json} {fs gs : Fields}
      → exact_json v ≡ exact_json w
      → SameItems fs gs
      → SameItems (field k v fs) (field k w gs)
  swap :
      (j k : String) (v w : Json) (fs : Fields)
      → codes j ≢ codes k
      → SameItems (field k v (field j w fs)) (field j w (field k v fs))
  both : {fs gs hs : Fields} → SameItems fs gs → SameItems gs hs → SameItems fs hs

sort_fields-SameItems : {fs gs : Fields} → SameItems fs gs → sort_fields fs ≡ sort_fields gs
unfolding exact_json
sort_fields-SameItems same_end = refl
sort_fields-SameItems (update k e same) = cc (e, sort_fields-SameItems same)
sort_fields-SameItems (swap j k v w fs differ) =
    insert_printed_comm (codes j) (codes k) (exact_json v) (exact_json w) (sort_fields fs) differ
sort_fields-SameItems (both p q) = sort_fields-SameItems p ∙ sort_fields-SameItems q

-- Payloads that differ only in the order in which distinct keys were set, at any depth, have one
-- exact JSON text.
pub exact_json-SameItems :
    {fs gs : Fields} → SameItems fs gs → exact_json (obj fs) ≡ exact_json (obj gs)
unfolding exact_json
exact_json-SameItems same = rw (sort_fields-SameItems same)
