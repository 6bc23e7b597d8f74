-- ===== src/Monitor/Choice.antt =====
-- `choose` picks the worst candidate (apps/web/src/server/collector/statusMachine.ts).
use nancy_man.Base.{
  true, false, List, [], ◌∷◌, some, none, ◌≡◌, refl, All, arith, Bool-cases, inl, inr,
}
use nancy_man.Monitor.Resources.{Candidate, goes_before, choose}

goes_before_trans :
    (e d c : Candidate)
    → goes_before e d ≡ false
    → goes_before d c ≡ false
    → goes_before e c ≡ false
goes_before_trans e d c h k = ground arith

goes_before_asym : (d c : Candidate) → goes_before d c ≡ true → goes_before c d ≡ false
goes_before_asym d c h = ground arith

none-before :
    (d c : Candidate) (cs : List Candidate)
    → goes_before d c ≡ false
    → All (λ e. goes_before e d ≡ false) cs
    → All (λ e. goes_before e c ≡ false) cs
none-before d c [] h k = tt
none-before d c (e ∷ es) h (p, k) = (goes_before_trans e d c p h, none-before d c es h k)

choose-empty : (cs : List Candidate) → choose cs ≡ none → cs ≡ []
unfolding choose
choose-empty [] h = refl
choose-empty (c ∷ cs) h = absurd (ground arith)

-- No candidate goes before the chosen one: none is critical if it is a warning, and among those of
-- its level none has a smaller priority. Something is chosen whenever there is a candidate.
pub choose-first :
    (c : Candidate) (cs : List Candidate)
    → (d : Candidate) × (choose (c ∷ cs) ≡ some d) × All (λ e. goes_before e d ≡ false) (c ∷ cs)
unfolding choose
choose-first c [] = (c, refl, (ground arith, tt))
choose-first c (b ∷ bs) =
    let (d, chosen, first) = choose-first b bs in
    elim (Bool-cases (goes_before d c)) [
      | inl earlier ↦ (d, ground arith, (goes_before_asym d c earlier, first))
      | inr later ↦ (c, ground arith, (ground arith, none-before d c (b ∷ bs) later first))
    ]
