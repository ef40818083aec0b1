-- ===== src/Protocol/Holds.antt =====
-- What holds of the result of a run of internal/protocol, where it returns.
use go_dqlite.Prelude.{◌≡◌, refl}
use go_dqlite.Message.State.{Panic, Outcome, ok, panic, stuck}
use go_dqlite.Message.Ending.{Ran}

-- A property of what a run returns, if it does.
abbrev pub Holds : {A : Type 0} → (A → Type 0) → Outcome A → Type 0
Holds P (ok a) = P a
Holds P (panic p) = Unit
Holds P stuck = Unit

pub Holds-map :
    {A : Type 0} {P Q : A → Type 0} (o : Outcome A) → ((a : A) → P a → Q a) → Holds P o → Holds Q o
Holds-map (ok a) f h = f a h
Holds-map (panic p) f h = tt
Holds-map stuck f h = tt

-- A run that ends, and whose result has the property if it returns.
pub Holds-Ran :
    {A : Type 0} (P : A → Type 0) (o : Outcome A) → Ran (λ a. Unit) o → Holds P o → Ran P o
Holds-Ran P (ok a) e h = h
Holds-Ran P (panic p) e h = tt
Holds-Ran P stuck e h = e

pub Ran-Holds : {A : Type 0} (P : A → Type 0) (o : Outcome A) → Ran P o → Holds P o
Ran-Holds P (ok a) h = h
Ran-Holds P (panic p) h = tt
Ran-Holds P stuck h = tt

-- How a run ends, and what holds then.
pub data Ending {A : Type 0} (P : A → Type 0) (o : Outcome A) : Type 0 where
  returned : (a : A) → o ≡ ok a → P a → Ending P o
  panicked : (p : Panic) → o ≡ panic p → Ending P o
  never : o ≡ stuck → Ending P o

pub Holds-cases : {A : Type 0} {P : A → Type 0} (o : Outcome A) → Holds P o → Ending P o
Holds-cases (ok a) h = returned a refl h
Holds-cases (panic p) h = panicked p refl
Holds-cases stuck h = never refl

pub Outcome-cases : {A : Type 0} (o : Outcome A) → Ending (λ a. Unit) o
Outcome-cases (ok a) = returned a refl tt
Outcome-cases (panic p) = panicked p refl
Outcome-cases stuck = never refl
