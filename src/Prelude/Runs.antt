-- ===== src/Prelude/Runs.antt =====
-- A method that changes `self` and may fail: the state is there on every way out.
use mathlib.Core.Path.{◌≡◌, refl}
use mathlib.Core.Option.{Option, none, some}
use lightvideo.Prelude.Fallible.{Outcome, ok, err, panic, Error}

pub data Ran {ℓ} (S : Type ℓ) (A : Type ℓ) : Type ℓ where
  done : A → S → Ran S A
  failed : Error → S → Ran S A
  panicked : S → Ran S A

abbrev pub M {ℓ} : Type ℓ → Type ℓ → Type ℓ
M S A = S → Ran S A

abbrev pub and_then {ℓ} : {S A B : Type ℓ} → Ran S A → (A → S → Ran S B) → Ran S B
and_then (done a s) f = f a s
and_then (failed e s) f = failed e s
and_then (panicked s) f = panicked s

infixl 5 ◌>>=◌ ◌>>◌
abbrev pub ◌>>=◌ {ℓ} : {S A B : Type ℓ} → M S A → (A → M S B) → M S B
◌>>=◌ m f s = and_then (m s) f

abbrev pub ◌>>◌ : {S B : Type 0} → M S (Unit {0}) → M S B → M S B
m >> k = m >>= λ _. k

abbrev pub return {ℓ} : {S A : Type ℓ} → A → M S A
return a s = done a s

abbrev pub get {ℓ} : {S : Type ℓ} → M S S
get s = done s s

abbrev pub modify : {S : Type 0} → (S → S) → M S (Unit {0})
modify f s = done tt (f s)

-- `e?` on a value that does not depend on the state.
abbrev pub lift {ℓ} : {S A : Type ℓ} → Outcome A → M S A
lift (ok a) s = done a s
lift (err e) s = failed e s
lift panic s = panicked s

abbrev pub throw {ℓ} : {S A : Type ℓ} → Error → M S A
throw e s = failed e s

abbrev pub final {ℓ} : {S A : Type ℓ} → Ran S A → S
final (done a s) = s
final (failed e s) = s
final (panicked s) = s

pub and_then_assoc {ℓ} :
    {S A B C : Type ℓ} (r : Ran S A) (f : A → S → Ran S B) (g : B → S → Ran S C)
    → and_then (and_then r f) g ≡ and_then r (λ a s. and_then (f a s) g)
and_then_assoc (done a s) f g = refl
and_then_assoc (failed e s) f g = refl
and_then_assoc (panicked s) f g = refl

-- `Q` holds of the value and the state when the run succeeds, and `E` of the state when it does not.
abbrev pub Ends {ℓ} : {S A : Type ℓ} → (A → S → Type 0) → (S → Type 0) → Ran S A → Type 0
Ends Q E (done a s) = Q a s
Ends Q E (failed e s) = E s
Ends Q E (panicked s) = E s

pub and_then-Ends {ℓ} :
    {S A B : Type ℓ} (E : S → Type 0) (Q : A → S → Type 0) (Q' : B → S → Type 0) (r : Ran S A)
    (f : A → S → Ran S B)
    → Ends Q E r
    → ((a : A) (s : S) → Q a s → Ends Q' E (f a s))
    → Ends Q' E (and_then r f)
and_then-Ends E Q Q' (done a s) f h k = k a s h
and_then-Ends E Q Q' (failed e s) f h k = h
and_then-Ends E Q Q' (panicked s) f h k = h

pub lift-Ends {ℓ} :
    {S A : Type ℓ} (E : S → Type 0) (Q : A → S → Type 0) (o : Outcome A) (s : S)
    → ((a : A) → Q a s)
    → E s
    → Ends Q E (lift o s)
lift-Ends E Q (ok a) s h e = h a
lift-Ends E Q (err x) s h e = e
lift-Ends E Q panic s h e = e

pub final-Ends {ℓ} :
    {S A : Type ℓ} (E : S → Type 0) (Q : A → S → Type 0) (r : Ran S A)
    → Ends Q E r
    → ((a : A) (s : S) → Q a s → E s)
    → E (final r)
final-Ends E Q (done a s) h k = k a s h
final-Ends E Q (failed e s) h k = h
final-Ends E Q (panicked s) h k = h

pub option-Ends {ℓ} :
    {S A T : Type ℓ} (E : S → Type 0) (Q : A → S → Type 0) (o : Option T) (r : Ran S A)
    (f : T → Ran S A)
    → Ends Q E r
    → ((t : T) → Ends Q E (f t))
    → Ends Q E (elim o [ none ↦ r | some t ↦ f t ])
option-Ends E Q none r f h k = h
option-Ends E Q (some t) r f h k = k t
