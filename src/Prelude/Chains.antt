-- ===== src/Prelude/Chains.antt =====
-- What every outcome of a chain of calls does to a part of the state that is watched.
use mathlib.Core.Path.{◌≡◌, sym, subst}
use mathlib.Core.Bool.{Bool, true, false}
use golang_staterpack.Prelude.Calls.{Result, ok, err, Call, ◌>>=◌, attempt}
use golang_staterpack.Prelude.Tests.{if◌then◌else◌}

-- A relation of a state to a later one.
pub record IsHistory {S : Type 0} (R : S → S → Type 0) : Type 0 where
  pub here : (s : S) → R s s
  pub then_on : (s t u : S) → R s t → R t u → R s u

module _ {K S E : Type 0} (see : K → S) (R : S → S → Type 0) where
  abbrev pub Steps : {A : Type 0} → Call K E A → Type 0
  Steps m = (k : K) → R (see k) (see (m k).1)

module _ {K S E : Type 0} (see : K → S) (R : S → S → Type 0) (history : IsHistory R) where
  pub Steps-even : {A : Type 0} (m : Call K E A) → ((k : K) → see (m k).1 ≡ see k) → Steps see R m
  Steps-even m even k = subst (λ s. R (see k) s) (sym (even k)) (history.here (see k))

  bind_step :
      {A B : Type 0} (f : A → Call K E B)
      → ((a : A) → Steps see R (f a))
      → (s : S) (r : Result E A) (k : K) → R s (see k)
      → R s (see (elim r as (λ _. Result E B × K) [ ok a ↦ f a k | err e ↦ (err e, k) ]).1)
  bind_step f rest s (ok a) k h = history.then_on s (see k) _ h (rest a k)
  bind_step f rest s (err e) k h = h

  pub Steps->>= :
      {A B : Type 0} (m : Call K E A) (f : A → Call K E B)
      → Steps see R m
      → ((a : A) → Steps see R (f a))
      → Steps see R (m >>= f)
  Steps->>= m f first rest k = bind_step f rest (see k) (m k).0 (m k).1 (first k)

  pub Steps-if :
      {A : Type 0} (b : Bool) (m n : Call K E A)
      → Steps see R m
      → Steps see R n
      → Steps see R (if b then m else n)
  Steps-if true m n yes_step no_step = yes_step
  Steps-if false m n yes_step no_step = no_step

module _ {K S E F : Type 0} (see : K → S) (R : S → S → Type 0) (history : IsHistory R) where
  pub Steps-attempt :
      {A B : Type 0} (m : Call K E A) (f : Result E A → Call K F B)
      → Steps see R m
      → ((r : Result E A) → Steps see R (f r))
      → Steps see R (attempt m f)
  Steps-attempt m f first rest k =
      history.then_on (see k) (see (m k).1) _ (first k) (rest (m k).0 (m k).1)
