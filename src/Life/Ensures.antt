-- ===== src/Life/Ensures.antt =====
-- What holds of every return of a call that may panic.
use sugimotos.PageAlloc.{Outcome, panic, returns}
use sugimotos.UserSpace.{then_do}

abbrev pub Ensures : {A : Type 0} → Outcome A → (A → Type 0) → Type 0
Ensures panic P = Unit {0}
Ensures (returns a) P = P a

pub then_do-Ensures :
    {A B : Type 0} (o : Outcome A) (k : A → Outcome B) (P : A → Type 0) (Q : B → Type 0)
    → Ensures o P
    → ((a : A) → P a → Ensures (k a) Q)
    → Ensures (then_do o k) Q
then_do-Ensures panic k P Q h f = tt
then_do-Ensures (returns a) k P Q h f = f a h

pub any-Ensures : {A : Type 0} (o : Outcome A) → Ensures o (λ _. Unit {0})
any-Ensures panic = tt
any-Ensures (returns a) = tt

pub mono-Ensures :
    {A : Type 0} (o : Outcome A) (P Q : A → Type 0)
    → Ensures o P
    → ((a : A) → P a → Q a)
    → Ensures o Q
mono-Ensures panic P Q h f = tt
mono-Ensures (returns a) P Q h f = f a h
