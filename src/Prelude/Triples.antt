-- ===== src/Prelude/Triples.antt =====
-- What a chain of calls leaves of a part of the state that is watched, by pre- and postconditions.
use mathlib.Core.Path.{◌≡◌, ◌∙◌}
use golang_staterpack.Prelude.Calls.{Result, ok, err, Call, ◌>>=◌, deferring}

-- The predicate of one value.
abbrev pub Is : {S : Type 0} → S → S → Type 0
Is s t = t ≡ s

module _ {K S E : Type 0} (see : K → S) where
  abbrev pub Left : {A : Type 0} → (S → Type 0) → (S → Type 0) → Result E A × K → Type 0
  Left Q R (ok a, k) = Q (see k)
  Left Q R (err e, k) = R (see k)

  -- From a state with `P` the call leaves `Q` where it succeeds and `R` where it fails.
  abbrev pub Triple :
      {A : Type 0} → (S → Type 0) → Call K E A → (S → Type 0) → (S → Type 0) → Type 0
  Triple P call Q R = (k : K) → P (see k) → Left Q R (call k)

  Left-bind :
      {A B : Type 0} (Q Q' R : S → Type 0) (f : A → Call K E B)
      → ((a : A) → Triple Q (f a) Q' R)
      → (r : Result E A) (k : K) → Left Q R (r, k)
      → Left {A = B} Q' R (elim r [ ok a ↦ f a k | err e ↦ (err e, k) ])
  Left-bind Q Q' R f rest (ok a) k h = rest a k h
  Left-bind Q Q' R f rest (err e) k h = h

  pub Triple->>= :
      {A B : Type 0} (P Q Q' R : S → Type 0) (call : Call K E A) (f : A → Call K E B)
      → Triple P call Q R
      → ((a : A) → Triple Q (f a) Q' R)
      → Triple P (call >>= f) Q' R
  Triple->>= P Q Q' R call f first rest k h =
      Left-bind Q Q' R f rest (call k).0 (call k).1 (first k h)

  pub Left-same :
      {A : Type 0} (P : S → Type 0) (r : Result E A) (k : K) → P (see k) → Left P P (r, k)
  Left-same P (ok a) k h = h
  Left-same P (err e) k h = h

  Left-err :
      {A : Type 0} (Q R R' : S → Type 0)
      → ((s : S) → R s → R' s)
      → (r : Result E A) (k : K) → Left Q R (r, k)
      → Left Q R' (r, k)
  Left-err Q R R' weaker (ok a) k h = h
  Left-err Q R R' weaker (err e) k h = weaker (see k) h

  -- A weaker postcondition for the failure.
  pub Triple-err :
      {A : Type 0} (P Q R R' : S → Type 0) (call : Call K E A)
      → ((s : S) → R s → R' s)
      → Triple P call Q R
      → Triple P call Q R'
  Triple-err P Q R R' call weaker t k h = Left-err Q R R' weaker (call k).0 (call k).1 (t k h)

  Left-deferring :
      {A : Type 0} (Q Q' R R' : S → Type 0) (after : K → K)
      → ((k : K) → Q (see k) → Q' (see (after k)))
      → ((k : K) → R (see k) → R' (see (after k)))
      → (r : Result E A) (k : K) → Left Q R (r, k)
      → Left Q' R' (r, after k)
  Left-deferring Q Q' R R' after done failed (ok a) k h = done k h
  Left-deferring Q Q' R R' after done failed (err e) k h = failed k h

  pub Triple-deferring :
      {A : Type 0} (P Q Q' R R' : S → Type 0) (after : K → K) (call : Call K E A)
      → Triple P call Q R
      → ((k : K) → Q (see k) → Q' (see (after k)))
      → ((k : K) → R (see k) → R' (see (after k)))
      → Triple P (deferring after call) Q' R'
  Triple-deferring P Q Q' R R' after call t done failed k h =
      Left-deferring Q Q' R R' after done failed (call k).0 (call k).1 (t k h)

  -- A call that changes nothing that is watched.
  pub Triple-even :
      {A : Type 0} (s : S) (call : Call K E A)
      → ((k : K) → see (call k).1 ≡ see k)
      → Triple (Is s) call (Is s) (Is s)
  Triple-even s call even k h = Left-same (Is s) (call k).0 (call k).1 (even k ∙ h)
