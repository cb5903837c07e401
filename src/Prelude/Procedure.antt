-- ===== src/Prelude/Procedure.antt =====
-- Procedures of the source: a function of the state, with a Go panic as `none`.
use mathlib.Core.Path.{◌≡◌, refl}
use mathlib.Core.Option.{Option, none, some}

abbrev pub Proc : Type 0 → Type 0 → Type 0
Proc S A = S → Option (A × S)

abbrev pub pure : {S A : Type 0} → A → Proc S A
pure a s = some (a, s)

-- What runs after a panic: nothing.
abbrev pub resume : {S A B : Type 0} → (A → Proc S B) → Option (A × S) → Option (B × S)
resume f none = none
resume f (some (a, s)) = f a s

infixl 5 ◌>>=◌ ◌>>◌
abbrev pub ◌>>=◌ : {S A B : Type 0} → Proc S A → (A → Proc S B) → Proc S B
◌>>=◌ m f s = resume f (m s)

abbrev pub ◌>>◌ : {S B : Type 0} → Proc S (Unit {0}) → Proc S B → Proc S B
m >> k = m >>= λ _. k

resume_assoc :
    {S A B C : Type 0} (f : A → Proc S B) (g : B → Proc S C) (o : Option (A × S))
    → resume (λ a. f a >>= g) o ≡ resume g (resume f o)
resume_assoc f g none = refl
resume_assoc f g (some (a, s)) = refl

pub >>-assoc :
    {S B : Type 0} (m k : Proc S (Unit {0})) (l : Proc S B) (s : S)
    → (m >> (k >> l)) s ≡ ((m >> k) >> l) s
>>-assoc m k l s = resume_assoc (λ _. k) (λ _. l) (m s)
