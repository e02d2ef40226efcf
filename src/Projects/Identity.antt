-- ===== src/Projects/Identity.antt =====
-- backend/app/workflows/project_meeting/identity.py: which member of a project a name in a
-- transcript means. Python's `str.strip`, `str.lower` and `split(" ")[0]` are parameters.
use relay.Prelude.{
  ℕ, ◌≡◌, refl, Bool, true, false, ◌||◌, Option, none, some, List, [], ◌∷◌, String, keep, All,
  All-map, find, str_eq, ◌==◌, Bool-cases, inl, inr, ◌⊎◌, arith, if◌then◌else◌,
}
use relay.Store.{ProjectMember}

-- `IdentityResolution`, a case for each status.
pub data IdentityResolution : Type 0 where
  unspecified unresolved : IdentityResolution
  resolved : (member_id : ℕ) → IdentityResolution
  ambiguous : (candidates : List ProjectMember) → IdentityResolution

-- What one of the two lists of matches decides; no match leaves it open.
unfoldable pub of_matches : List ProjectMember → IdentityResolution → IdentityResolution
of_matches [] otherwise = otherwise
of_matches (m ∷ []) otherwise = IdentityResolution.resolved m.id
of_matches (m ∷ n ∷ ms) otherwise = IdentityResolution.ambiguous (m ∷ n ∷ ms)

-- `member_by_id`
unfoldable pub member_by_id : List ProjectMember → Option ℕ → Option ProjectMember
member_by_id members none = none
member_by_id members (some member_id) = find (λ m. m.id == member_id) members

keep-none :
    (p : ProjectMember → Bool) (xs : List ProjectMember)
    → keep p xs ≡ []
    → All (λ x. p x ≡ false) xs
keep-none p [] h = tt
keep-none p (x ∷ xs) h = elim (Bool-cases (p x)) [
  | inl hit ↦ absurd (ground arith)
  | inr miss ↦ let rest : keep p xs ≡ [] = ground arith in (miss, keep-none p xs rest)
]

-- A list of matches with one entry: whoever matches is that entry.
keep-one :
    (p : ProjectMember → Bool) (xs : List ProjectMember) (m : ProjectMember)
    → keep p xs ≡ m ∷ []
    → All (λ x. p x ≡ true → x ≡ m) xs
keep-one p [] m h = tt
keep-one p (x ∷ xs) m h = elim (Bool-cases (p x)) [
  | inl hit ↦
      let same : x ≡ m = ground arith in
      let rest : keep p xs ≡ [] = ground arith in
      (λ _. same, All-map (λ y miss hit'. absurd (cc)) xs (keep-none p xs rest))
  | inr miss ↦
      let rest : keep p xs ≡ m ∷ [] = ground arith in (λ hit. absurd (cc), keep-one p xs m rest)
]

-- `m` is the one member that `p` holds of.
pub record IsOnly (p : ProjectMember → Bool) (members : List ProjectMember) (m : ProjectMember)
    : Type 0 where
  pub listed : keep p members ≡ m ∷ []
  pub alone : All (λ x. p x ≡ true → x ≡ m) members

of_matches-one :
    (xs ys : List ProjectMember) (id : ℕ)
    → of_matches xs (of_matches ys IdentityResolution.unresolved) ≡ IdentityResolution.resolved id
    → (m : ProjectMember) × (m.id ≡ id) × ((xs ≡ m ∷ []) ⊎ ((xs ≡ []) × (ys ≡ m ∷ [])))
unfolding of_matches
of_matches-one [] [] id h = absurd (cc)
of_matches-one [] (y ∷ []) id h = (y, ground arith, inr (refl, refl))
of_matches-one [] (y ∷ z ∷ ys) id h = absurd (cc)
of_matches-one (x ∷ []) ys id h = (x, ground arith, inl refl)
of_matches-one (x ∷ y ∷ xs) ys id h = absurd (cc)

module _ (strip lower first_word : String → String) where
  abbrev pub full_name_matches : String → ProjectMember → Bool
  full_name_matches needle m = str_eq (lower (strip m.display_name)) needle

  abbrev pub first_name_matches : String → ProjectMember → Bool
  first_name_matches needle m = str_eq (first_word (lower (strip m.display_name))) needle

  unfoldable pub resolve_identity : Option String → List ProjectMember → IdentityResolution
  unfolding of_matches
  resolve_identity none members = IdentityResolution.unspecified
  resolve_identity (some owner_name) members =
      if str_eq owner_name "" || str_eq (strip owner_name) ""
      then IdentityResolution.unspecified
      else of_matches (keep (full_name_matches (lower (strip owner_name))) members) (
          of_matches (keep (first_name_matches (lower (strip owner_name))) members)
            IdentityResolution.unresolved)

  -- A name resolves to a member only if that member matches it and no other member does: either by
  -- the full name, or by the first name where no full name matches.
  pub resolve_identity-IsOnly :
      (owner_name : String) (members : List ProjectMember) (id : ℕ)
      → resolve_identity (some owner_name) members ≡ IdentityResolution.resolved id
      → (m : ProjectMember) × (m.id ≡ id)
        × (IsOnly (full_name_matches (lower (strip owner_name))) members m
            ⊎ (All (λ x. full_name_matches (lower (strip owner_name)) x ≡ false) members
                × IsOnly (first_name_matches (lower (strip owner_name))) members m))
  unfolding resolve_identity
  resolve_identity-IsOnly owner_name members id h =
      let full = full_name_matches (lower (strip owner_name)) in
      let first = first_name_matches (lower (strip owner_name)) in
      let decided : of_matches (keep full members)
            (of_matches (keep first members) IdentityResolution.unresolved)
          ≡ IdentityResolution.resolved id =
        ground arith in
      let (m, same, which) = of_matches-one (keep full members) (keep first members) id decided in
      (
        m,
        same,
        elim which [
          | inl whole ↦ inl (record { listed = whole; alone = keep-one full members m whole })
          | inr (none_whole, head) ↦ inr (
            keep-none full members none_whole,
            record { listed = head; alone = keep-one first members m head },
          )
        ],
      )
