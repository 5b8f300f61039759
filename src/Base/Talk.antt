-- ===== src/Base/Talk.antt =====
-- Code with state that may not return.
use mathlib.Core.Option.{Option, none, some}

-- None: the code waits for ever, or ends the program.
abbrev pub Talk : Type 0 → Type 0 → Type 0
Talk W A = W → Option (A × W)

abbrev pub then : {W A B : Type 0} → Option (A × W) → (A → Talk W B) → Option (B × W)
then none f = none
then (some (a, w)) f = f a w

infixl 5 ◌>>=◌
abbrev pub ◌>>=◌ : {W A B : Type 0} → Talk W A → (A → Talk W B) → Talk W B
m >>= f = λ w. then (m w) f

abbrev pub return : {W A : Type 0} → A → Talk W A
return a w = some (a, w)

abbrev pub never : {W A : Type 0} → Talk W A
never w = none
