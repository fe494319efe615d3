-- ===== src/Common/Effects.antt =====
-- Go functions that call the cluster: a result, an error or a panic, beside the calls made so far.
use mathlib.Core.List.{List, [], ◌∷◌}
use mathlib.Core.Path.{◌≡◌, refl}
use mathlib.Core.Logic.{◌⊎◌, inl, inr}
use mathlib.Core.Bool.{Bool, true, false}
use mathlib.Core.Option.{Option, none, some}
use Prim.Native.String.{String}

-- The classes of errors that the code tells apart, and its own messages.
pub data Error : Type 0 where
  not_found already_exists invalid conflict precondition_violated : Error
  server : String → Error
  message : String → Error

-- `errors.IsNotFound` and the like
abbrev pub is_not_found : Error → Bool
is_not_found not_found = true
is_not_found e = false

abbrev pub is_already_exists : Error → Bool
is_already_exists already_exists = true
is_already_exists e = false

abbrev pub is_invalid : Error → Bool
is_invalid invalid = true
is_invalid e = false

-- What a call outside the program answers: a value, or an error.
pub data Reply (A : Type 0) : Type 0 where
  reply : A → Reply A
  failed : Error → Reply A

pub Reply-cases :
    {A : Type 0} (r : Reply A) → ((a : A) × (r ≡ reply a)) ⊎ ((e : Error) × (r ≡ failed e))
Reply-cases (reply a) = inl (a, refl)
Reply-cases (failed e) = inr (e, refl)

-- How a Go function ends; `blocked` is one that waits for ever.
pub data Result (A : Type 0) : Type 0 where
  ok : A → Result A
  err : Error → Result A
  panic blocked : Result A

-- The calls made so far, the latest first, are the state. Those made before an error or a panic
-- stay made.
abbrev pub Exec : Type 0 → Type 0 → Type 0
Exec C A = List C → Result A × List C

module _ {C : Type 0} where
  -- A call that has no answer.
  abbrev pub post : C → Exec C (Unit {0})
  post c h = (ok tt, c ∷ h)

module _ {C A : Type 0} where
  abbrev pub pure : A → Exec C A
  pure a h = (ok a, h)

  abbrev pub fail : Error → Exec C A
  fail e h = (err e, h)

  abbrev pub crash : Exec C A
  crash h = (panic, h)

  abbrev pub lift : Reply A → Exec C A
  lift (reply a) h = (ok a, h)
  lift (failed e) h = (err e, h)

  -- Make a call, whose answer may depend on all calls before it.
  abbrev pub call : C → (List C → Reply A) → Exec C A
  call c answer h = lift (answer h) (c ∷ h)

  -- The value, read off the calls made so far.
  abbrev pub observe : (List C → A) → Exec C A
  observe f h = (ok (f h), h)

  -- `*p` for a pointer: a nil pointer panics.
  abbrev pub deref : Option A → Exec C A
  deref none h = (panic, h)
  deref (some a) h = (ok a, h)

module _ {C A B : Type 0} where
  abbrev pub continue : Result A → (A → Exec C B) → Exec C B
  continue (ok a) f h = f a h
  continue (err e) f h = (err e, h)
  continue panic f h = (panic, h)
  continue blocked f h = (blocked, h)

  infixl 5 ◌>>=◌ ◌>>◌
  abbrev pub ◌>>=◌ : Exec C A → (A → Exec C B) → Exec C B
  ◌>>=◌ m f h = let (r, h') = m h in continue r f h'

  abbrev pub ◌>>◌ : Exec C A → Exec C B → Exec C B
  ◌>>◌ m n h = let (r, h') = m h in continue r (λ _. n) h'

module _ {A : Type 0} where
  abbrev pub observed : Result A → Result (Reply A)
  observed (ok a) = ok (reply a)
  observed (err e) = ok (failed e)
  observed panic = panic
  observed blocked = blocked

  abbrev pub ignored : Result A → Result (Unit {0})
  ignored (ok a) = ok tt
  ignored (err e) = ok tt
  ignored panic = panic
  ignored blocked = blocked

module _ {C A : Type 0} where
  -- `v, err := m` where the code looks at the error itself.
  abbrev pub attempt : Exec C A → Exec C (Reply A)
  attempt m h = let (r, h') = m h in (observed r, h')

  -- A call whose value and error the code drops.
  abbrev pub ignore : Exec C A → Exec C (Unit {0})
  ignore m h = let (r, h') = m h in (ignored r, h')

module _ {C A : Type 0} where
  -- A call whose answer is dropped is made, and that is all.
  pub ignore-call :
      (c : C) (answer : List C → Reply A) (h : List C) → ignore (call c answer) h ≡ (ok tt, c ∷ h)
  ignore-call c answer h = elim (Reply-cases (answer h)) [
    | inl (a, e) ↦ rw e refl
    | inr (x, e) ↦ rw e refl
  ]

-- `for _, x := range xs` over a body that may end the function.
module _ {C A : Type 0} where
  unfoldable pub for_each : List A → (A → Exec C (Unit {0})) → Exec C (Unit {0})
  for_each [] f = pure tt
  for_each (x ∷ xs) f = f x >> for_each xs f
