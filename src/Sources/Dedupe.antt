-- ===== src/Sources/Dedupe.antt =====
-- backend/app/sources/dedupe.py: `find_possible_duplicate`. The similarity of two texts is a
-- parameter, a whole number of some unit, as is the threshold; scores are doubled in place of halved
-- sums.
use relay.Prelude.{
  ℕ, ◌+◌, ◌*◌, max, Bool, true, false, Option, none, some, List, [], ◌∷◌, String, ltb, not, ◌&&◌,
  str_eq, if◌then◌else◌,
}
use relay.Store.{Key}

pub record DuplicateCandidate : Type 0 where
  pub reference : Key
  pub title : String
  pub description : Option String

-- `if description and candidate.description`
abbrev pub has_text : Option String → Bool
has_text none = false
has_text (some text) = not (str_eq text "")

module _ (similarity : Option String → Option String → ℕ) (threshold : ℕ) where
  -- Twice the score.
  abbrev pub score : String → Option String → DuplicateCandidate → ℕ
  score title description c =
      let title_score = similarity (some title) (some c.title) in
      if has_text description && has_text c.description
      then max (2 * title_score) (title_score + similarity description c.description)
      else 2 * title_score

  abbrev pub is_better : ℕ → Option (DuplicateCandidate × ℕ) → Bool
  is_better found none = true
  is_better found (some best) = ltb best.1 found

  unfoldable pub best_match :
      String
      → Option String
      → Option (DuplicateCandidate × ℕ)
      → List DuplicateCandidate
      → Option (DuplicateCandidate × ℕ)
  best_match title description best [] = best
  best_match title description best (c ∷ cs) =
      let found = score title description c in
      best_match title description
        (if not (ltb found (2 * threshold)) && is_better found best then some (c, found) else best)
        cs

  unfoldable pub find_possible_duplicate :
      String → Option String → List DuplicateCandidate → Option DuplicateCandidate
  unfolding best_match
  find_possible_duplicate title description candidates =
      elim (best_match title description none candidates) [ none ↦ none | some best ↦ some best.0 ]
