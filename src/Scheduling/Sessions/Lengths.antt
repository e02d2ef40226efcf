-- ===== src/Scheduling/Sessions/Lengths.antt =====
-- What `decompose_minutes` of backend/app/scheduling/solver.py returns.
use relay.Prelude.{
  ℕ, zero, suc, ◌+◌, ◌-◌, ◌≤◌, ◌<◌, min, ◌≡◌, refl, ◌∙◌, ap, subst, ltb→lt, some, List, [], ◌∷◌,
  All, ltb, Bool-cases, inl, inr, arith,
}
use relay.Prelude.Int.{ℤ, pos, ◌+ℤ◌, ◌≤ℤ◌, pos-+ℤ-pos}
use relay.Scheduling.Sessions.{slot_minutes, take_chunks, settle, decompose_minutes}

abbrev sum : List ℕ → ℕ
sum [] = 0
sum (x ∷ xs) = x + sum xs

abbrev pub total : List ℤ → ℤ
total [] = pos 0
total (x ∷ xs) = x +ℤ total xs

-- Chunks of exactly `target`, then one of at most `target`.
abbrev IsCut : ℕ → List ℕ → Type 0
IsCut target [] = Unit
IsCut target (a ∷ []) = (1 ≤ a) × (a ≤ target)
IsCut target (a ∷ b ∷ rest) = (a ≡ target) × IsCut target (b ∷ rest)

IsCut-cons :
    (target : ℕ) (chunks : List ℕ)
    → 1 ≤ sum chunks
    → IsCut target chunks
    → IsCut target (target ∷ chunks)
IsCut-cons target [] h cut = absurd (omega arith)
IsCut-cons target (a ∷ rest) h cut = (refl, cut)

-- The result of the loop over `remaining` minutes.
record Chunked (fuel target remaining : ℕ) : Type 0 where
  chunks : List ℕ
  returned : take_chunks fuel target remaining ≡ some chunks
  whole : sum chunks ≡ remaining
  cut : IsCut target chunks

-- The loop ends: fuel above the minutes is enough.
take_chunks-Chunked :
    (fuel target remaining : ℕ)
    → 1 ≤ target
    → 1 ≤ remaining
    → remaining < fuel
    → Chunked fuel target remaining
unfolding take_chunks
take_chunks-Chunked zero target remaining h p k = absurd (omega arith)
take_chunks-Chunked (suc fuel) target remaining h p k = elim (Bool-cases (ltb target remaining)) [
  | inl more ↦
      let rest =
        take_chunks-Chunked fuel target (remaining - target) h (ground arith) (ground arith) in
      record {
        chunks = target ∷ rest.chunks;
        returned = rw (more, rest.returned);
        whole = ground (arith, rest.whole);
        cut =
            IsCut-cons target rest.chunks (omega (arith, rest.whole, ltb→lt target remaining more))
              rest.cut;
      }
  | inr last ↦ record {
    chunks = remaining ∷ [];
    returned = ground arith;
    whole = omega arith;
    cut = ground arith;
  }
]

settle_pair-total : (maximum a b : ℕ) → total (settle maximum (a ∷ b ∷ [])) ≡ pos (a + b)
unfolding settle ◌+ℤ◌
settle_pair-total maximum a b = ground arith

settle-total :
    (target maximum : ℕ) (chunks : List ℕ)
    → IsCut target chunks
    → total (settle maximum chunks) ≡ pos (sum chunks)
unfolding settle
settle-total target maximum [] cut = refl
settle-total target maximum (a ∷ []) cut = pos-+ℤ-pos a 0
settle-total target maximum (a ∷ b ∷ []) cut =
    settle_pair-total maximum a b ∙ ap (λ n. pos (a + n)) (omega arith)
settle-total target maximum (a ∷ b ∷ c ∷ rest) cut =
    rw (settle-total target maximum (b ∷ c ∷ rest) cut.1) (pos-+ℤ-pos a _)

-- Whatever the lengths, if the preferred and the longest session are at least a minute, the
-- sessions are cut in finitely many steps and their minutes add up to the work.
pub decompose_minutes-total :
    (minutes preferred maximum : ℕ)
    → 1 ≤ preferred
    → 1 ≤ maximum
    → (chunks : List ℤ) × (decompose_minutes minutes preferred maximum ≡ some chunks)
      × (total chunks ≡ pos minutes)
unfolding decompose_minutes
decompose_minutes-total zero preferred maximum h k = ([], refl, refl)
decompose_minutes-total (suc n) preferred maximum h k =
    let loop =
      take_chunks-Chunked (suc (suc n)) (min preferred maximum) (suc n) (omega arith) (omega arith)
        (omega arith) in
    (
      settle maximum loop.chunks,
      rw loop.returned,
      settle-total (min preferred maximum) maximum loop.chunks loop.cut ∙ ap pos loop.whole,
    )

abbrev pub Fits : ℕ → ℤ → Type 0
Fits maximum chunk = (pos 1 ≤ℤ chunk) × (chunk ≤ℤ pos maximum)

settle-Fits :
    (target maximum : ℕ) (chunks : List ℕ)
    → slot_minutes ≤ target
    → target ≤ maximum
    → IsCut target chunks
    → All (Fits maximum) (settle maximum chunks)
unfolding settle
settle-Fits target maximum [] slot le cut = tt
settle-Fits target maximum (a ∷ []) slot le cut = (ground arith, tt)
settle-Fits target maximum (a ∷ b ∷ []) slot le cut = ground arith
settle-Fits target maximum (a ∷ b ∷ c ∷ rest) slot le cut =
    (ground arith, settle-Fits target maximum (b ∷ c ∷ rest) slot le cut.1)

some_eq : (xs ys : List ℤ) → some xs ≡ some ys → xs ≡ ys
some_eq xs ys e = cc

-- With sessions of at least one slot, every session has at least one minute and at most the
-- longest allowed.
pub decompose_minutes-Fits :
    (minutes preferred maximum : ℕ) {chunks : List ℤ}
    → slot_minutes ≤ preferred
    → slot_minutes ≤ maximum
    → decompose_minutes minutes preferred maximum ≡ some chunks
    → All (Fits maximum) chunks
unfolding decompose_minutes
decompose_minutes-Fits zero preferred maximum h k e = subst (All (Fits maximum)) (some_eq [] _ e) tt
decompose_minutes-Fits (suc n) preferred maximum h k e =
    let loop =
      take_chunks-Chunked (suc (suc n)) (min preferred maximum) (suc n) (omega arith) (omega arith)
        (omega arith) in
    subst (All (Fits maximum)) (some_eq _ _ (rw loop.returned at e))
      (settle-Fits (min preferred maximum) maximum loop.chunks (omega arith) (omega arith) loop.cut)

settle_long :
    (maximum a b : ℕ) (rest : List ℕ)
    → maximum < slot_minutes
    → IsCut maximum (a ∷ b ∷ rest)
    → ¬ All (λ c. c ≤ℤ pos maximum) (settle maximum (a ∷ b ∷ rest))
unfolding settle
settle_long maximum a b [] short cut all = ground arith
settle_long maximum a b (c ∷ rest) short cut all = settle_long maximum b c rest short cut.1 all.1

settle_exceeds :
    (maximum : ℕ) (chunks : List ℕ)
    → maximum < slot_minutes
    → maximum < sum chunks
    → IsCut maximum chunks
    → ¬ All (λ c. c ≤ℤ pos maximum) (settle maximum chunks)
settle_exceeds maximum [] short more cut = absurd (omega arith)
settle_exceeds maximum (a ∷ []) short more cut = absurd (omega arith)
settle_exceeds maximum (a ∷ b ∷ rest) short more cut = settle_long maximum a b rest short cut

-- Where the longest session is shorter than a slot and work is left after one of them, some
-- session is longer than the longest allowed, although the preferences admit such a maximum.
pub decompose_minutes_exceeds :
    (minutes preferred maximum : ℕ)
    → 1 ≤ maximum
    → maximum < slot_minutes
    → maximum ≤ preferred
    → maximum < minutes
    → (chunks : List ℤ) × (decompose_minutes minutes preferred maximum ≡ some chunks)
      × (¬ All (λ c. c ≤ℤ pos maximum) chunks)
unfolding decompose_minutes
decompose_minutes_exceeds zero preferred maximum positive short le more = absurd (omega arith)
decompose_minutes_exceeds (suc n) preferred maximum positive short le more =
    let loop =
      take_chunks-Chunked (suc (suc n)) (min preferred maximum) (suc n) (omega arith) (omega arith)
        (omega arith) in
    let same : min preferred maximum ≡ maximum = omega arith in
    (
      settle maximum loop.chunks,
      rw loop.returned,
      settle_exceeds maximum loop.chunks short (omega (arith, loop.whole))
          (subst (λ t. IsCut t loop.chunks) same loop.cut),
    )
