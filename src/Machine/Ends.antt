-- ===== src/Machine/Ends.antt =====
-- The ends of a command that may call `util_fatal`: how the lemmas on failing calls are stated.
use righack.Base.{◌≡◌, ◌⊎◌, inl, inr, Text, ap, ◌∙◌}
use righack.Machine.{World, Outcome, Prog, ok, stop, fatal, and_then}

module _ {X : Type 0} where
  -- The process ends by `util_fatal`, and not all of the calls outside that `S` is about succeed.
  abbrev pub Dies : {A : Type 0} → Type 0 → Outcome X A → Type 0
  Dies S o = (m : Text) × (v : World X) × (o ≡ stop (fatal m) v) × (¬ S)

  -- The process ends by `util_fatal`.
  abbrev pub IsFatal : {A : Type 0} → Outcome X A → Type 0
  IsFatal o = (m : Text) × (v : World X) × (o ≡ stop (fatal m) v)

  -- The command returns with a change of the state outside at most, or ends by `util_fatal`.
  abbrev pub IsOutside : {A : Type 0} → Type 0 → World X → Outcome X A → Type 0
  IsOutside S w (ok a v) = (x : X) × (v ≡ record w { ext = x })
  IsOutside S w (stop s v) = (m : Text) × (s ≡ fatal m) × (¬ S)

  pub outside_cases :
      {A : Type 0} (S : Type 0) (w : World X) (o : Outcome X A)
      → IsOutside S w o
      → ((a : A) × (x : X) × (o ≡ ok a (record w { ext = x }))) ⊎ Dies S o
  outside_cases S w (ok a v) (x, e) = inl (a, x, ap (ok a) e)
  outside_cases S w (stop s v) (m, e, why) = inr (m, v, ap (λ r. stop r v) e, why)

  pub Dies-and_then :
      {A B : Type 0} {S T : Type 0} {o : Outcome X A} {o' : Outcome X B}
      → (k : A → Prog X B) → (T → S)
      → o' ≡ and_then o k
      → Dies S o
      → Dies T o'
  Dies-and_then k narrows same (m, v, e, why) =
      (m, v, same ∙ ap (λ r. and_then r k) e, λ t. why (narrows t))
