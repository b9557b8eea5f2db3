-- ===== src/Common/Action.antt =====
-- `&mut self` methods that return a `Result`: an action takes the state, and gives the result with
-- the state after it. An error keeps what was changed before it.
use mathlib.Core.Bool.{Bool, true, false}
use mathlib.Core.Path.{◌≡◌, refl}
use mathlib.Core.Logic.{◌⊎◌, inl, inr}
use vector_ledger.Common.Fallible.{Result, ok, err}

abbrev pub Action : Type 0 → Type 0 → Type 0 → Type 0
Action S E A = S → Result E A × S

abbrev pub bind_from : {S E A B : Type 0} → (A → Action S E B) → Result E A × S → Result E B × S
bind_from f (ok a, s) = f a s
bind_from f (err e, s) = (err e, s)

infixl 5 ◌>>=◌ ◌>>◌
abbrev pub ◌>>=◌ : {S E A B : Type 0} → Action S E A → (A → Action S E B) → Action S E B
◌>>=◌ m f s = bind_from f (m s)

abbrev pub ◌>>◌ : {S E A B : Type 0} → Action S E A → Action S E B → Action S E B
◌>>◌ m k s = bind_from (λ _. k) (m s)

abbrev pub pure : {S E A : Type 0} → A → Action S E A
pure a s = (ok a, s)

abbrev pub throw : {S E A : Type 0} → E → Action S E A
throw e s = (err e, s)

-- A result that does not touch the state, under `?`.
abbrev pub lift : {S E A : Type 0} → Result E A → Action S E A
lift r s = (r, s)

abbrev pub gets : {S E A : Type 0} → (S → A) → Action S E A
gets f s = (ok (f s), s)

abbrev pub modify : {S E : Type 0} → (S → S) → Action S E (Unit {0})
modify f s = (ok tt, f s)

-- A check that reads the state, under `?`.
abbrev pub inspect : {S E A : Type 0} → (S → Result E A) → Action S E A
inspect f s = (f s, s)

-- `if c { return Err(e) }`.
abbrev pub throw_if : {S E : Type 0} → Bool → E → Action S E (Unit {0})
throw_if true e s = (err e, s)
throw_if false e s = (ok tt, s)

-- An action on a part of the state, its errors converted as `?` does.
abbrev pub zoom_result :
    {S T E F A : Type 0} → (E → F) → (T → S → S) → S → Result E A × T → Result F A × S
zoom_result convert put s (ok a, t) = (ok a, put t s)
zoom_result convert put s (err e, t) = (err (convert e), put t s)

abbrev pub zoom :
    {S T E F A : Type 0} → (S → T) → (T → S → S) → (E → F) → Action T E A → Action S F A
zoom part put convert m s = zoom_result convert put s (m (part s))

pub Action-cases :
    {S E A : Type 0} (x : Result E A × S)
    → ((a : A) × (s : S) × (◌≡◌ {A = Result E A × S} x (ok a, s)))
      ⊎ ((e : E) × (s : S) × (◌≡◌ {A = Result E A × S} x (err e, s)))
Action-cases (ok a, s) = inl (a, s, refl)
Action-cases (err e, s) = inr (e, s, refl)

-- A property of the state that an action keeps, however it ends.
module _ {S : Type 0} (I : S → Type 0) where
  unfoldable pub Keeps : {E A : Type 0} → Action S E A → Type 0
  Keeps m = (s : S) → I s → I (m s).1

  Keeps-from :
      {E A B : Type 0} (f : A → Action S E B) (x : Result E A × S)
      → ((a : A) → Keeps (f a))
      → I x.1
      → I (bind_from f x).1
  unfolding Keeps
  Keeps-from f (ok a, s) k i = k a s i
  Keeps-from f (err e, s) k i = i

  pub Keeps-bind :
      {E A B : Type 0} (m : Action S E A) (f : A → Action S E B)
      → Keeps m
      → ((a : A) → Keeps (f a))
      → Keeps (m >>= f)
  unfolding Keeps
  Keeps-bind m f h k s i = Keeps-from f (m s) k (h s i)

  pub Keeps-then :
      {E A B : Type 0} (m : Action S E A) (k : Action S E B) → Keeps m → Keeps k → Keeps (m >> k)
  unfolding Keeps
  Keeps-then m k h h' s i = Keeps-from (λ _. k) (m s) (λ a. h') (h s i)

  -- A step that leaves the state: `lift`, `gets`, `inspect`, `pure`.
  pub Keeps-read : {E A : Type 0} (f : S → Result E A) → Keeps (inspect f)
  unfolding Keeps
  Keeps-read f s i = i

  Keeps-zoomed :
      {T E F A : Type 0} (put : T → S → S) (convert : E → F) (s : S) (x : Result E A × T)
      → ((t : T) → I (put t s))
      → I (zoom_result convert put s x).1
  Keeps-zoomed put convert s (ok a, t) h = h t
  Keeps-zoomed put convert s (err e, t) h = h t

  pub Keeps-zoom :
      {T E F A : Type 0} (part : S → T) (put : T → S → S) (convert : E → F) (m : Action T E A)
      → ((t : T) (s : S) → I s → I (put t s))
      → Keeps (zoom part put convert m)
  unfolding Keeps
  Keeps-zoom part put convert m h s i = Keeps-zoomed put convert s (m (part s)) (λ t. h t s i)
