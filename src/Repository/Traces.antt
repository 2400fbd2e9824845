-- ===== src/Repository/Traces.antt =====
-- Work on the database as the list of its calls of the repository.
use golang_staterpack.Prelude.{
  ℕ, ◌+◌, ◌≤◌, ◌≡◌, refl, sym, ◌∙◌, ap, List, [], ◌∷◌, ◌++◌, Option, arith,
}
use golang_staterpack.Model.{Uuid}
use golang_staterpack.Repository.Defs.{TaskRepository}
use golang_staterpack.Repository.Claims.{RepositoryCall, after, after_all}
use golang_staterpack.Repository.Histories.{
  removals, creations, removals-cons, creations-cons, savings, savings-cons,
}
use golang_staterpack.Repository.Footprint.{IsFootprint}

removals-append :
    (i : Uuid) (xs ys : List RepositoryCall) → removals i (xs ++ ys) ≡ removals i xs + removals i ys
unfolding removals
removals-append i [] ys = omega arith
removals-append i (x ∷ xs) ys =
    omega (arith, removals-cons i x xs, removals-cons i x (xs ++ ys), removals-append i xs ys)

creations-append :
    (i : Uuid) (xs ys : List RepositoryCall)
    → creations i (xs ++ ys) ≡ creations i xs + creations i ys
unfolding creations
creations-append i [] ys = omega arith
creations-append i (x ∷ xs) ys =
    omega (arith, creations-cons i x xs, creations-cons i x (xs ++ ys), creations-append i xs ys)

savings-append :
    (i : Uuid) (xs ys : List RepositoryCall) → savings i (xs ++ ys) ≡ savings i xs + savings i ys
unfolding savings
savings-append i [] ys = omega arith
savings-append i (x ∷ xs) ys =
    omega (arith, savings-cons i x xs, savings-cons i x (xs ++ ys), savings-append i xs ys)

after_all-append :
    {D : Type 0} (r : TaskRepository D) (xs ys : List RepositoryCall) (d : D)
    → after_all r (xs ++ ys) d ≡ after_all r ys (after_all r xs d)
unfolding after_all
after_all-append r [] ys d = refl
after_all-append r (x ∷ xs) ys d = after_all-append r xs ys (after r x d)

abbrev pub nowhere : Uuid → ℕ
nowhere i = 0

module _ {D : Type 0} (r : TaskRepository D) where
  -- What is done is a list of calls, of which `gone i` delete task `i`, at most `made i` create it, and
  -- none saves it by `Update`.
  abbrev pub Makes : (Uuid → ℕ) → (Uuid → ℕ) → D → D → Type 0
  Makes gone made d d' =
      (cs : List RepositoryCall) × (d' ≡ after_all r cs d)
      × ((i : Uuid) → (removals i cs ≡ gone i) × (creations i cs ≤ made i) × (savings i cs ≡ 0))

  pub Makes-none : (made : Uuid → ℕ) (d : D) → Makes nowhere made d d
  unfolding after_all removals creations savings
  Makes-none made d = ([], refl, λ i. (refl, omega arith, refl))

  pub Makes-one :
      (gone made : Uuid → ℕ) (c : RepositoryCall) (d : D)
      → ((i : Uuid)
          → (removals i (c ∷ []) ≡ gone i)
            × (creations i (c ∷ []) ≤ made i)
            × (savings i (c ∷ []) ≡ 0))
      → Makes gone made d (after r c d)
  unfolding after_all
  Makes-one gone made c d h = (c ∷ [], refl, h)

  single :
      (c : RepositoryCall) (d : D)
      → ((i : Uuid)
          → (removals i (c ∷ []) ≡ 0) × (creations i (c ∷ []) ≡ 0) × (savings i (c ∷ []) ≡ 0))
      → Makes nowhere nowhere d (after r c d)
  single c d h = Makes-one nowhere nowhere c d (λ i. let (x, y, z) = h i in (x, omega arith, z))

  pub Makes-chain :
      (gone gone' made made' : Uuid → ℕ) (a b c : D)
      → Makes gone made a b
      → Makes gone' made' b c
      → Makes (λ i. gone i + gone' i) (λ i. made i + made' i) a c
  Makes-chain gone gone' made made' a b c (cs, e, f) (cs', e', f') = (
    cs ++ cs',
    e' ∙ ap (after_all r cs') e ∙ sym (after_all-append r cs cs' a),
    λ i.
        let (x, y, z) = f i in
        let (x', y', z') = f' i in
        (
          removals-append i cs cs' ∙ omega arith,
          omega (arith, creations-append i cs cs'),
          savings-append i cs cs' ∙ omega arith,
        ),
  )

  -- No task is created or deleted.
  abbrev pub Works : Option Uuid → D → D → Type 0
  Works n = Makes nowhere nowhere

  pub Works-IsFootprint : IsFootprint r Works
  unfolding after removals creations savings
  Works-IsFootprint = record {
    history = λ n. record {
      here = λ d. Makes-none nowhere d;
      then_on = λ a b c h k. Makes-chain nowhere nowhere nowhere nowhere a b c h k;
    };
    gets = λ n i d. single (RepositoryCall.gets i) d (λ j. (refl, refl, refl));
    finds_stale =
        λ n a b limit d. single (RepositoryCall.finds_stale a b limit) d (λ j. (refl, refl, refl));
    updates_status = λ i s summary d.
        single (RepositoryCall.updates_status i s summary) d (λ j. (refl, refl, refl));
    marks_processing =
        λ i d. single (RepositoryCall.marks_processing i) d (λ j. (refl, refl, refl));
  }
