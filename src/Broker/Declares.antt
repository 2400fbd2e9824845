-- ===== src/Broker/Declares.antt =====
-- Chains of declarations, and what they leave behind on the server.
use golang_staterpack.Prelude.{
  String, ◌≡◌, ◌⊎◌, inl, inr, List, ◌++◌, Memᴰ, Memᴰ-append_left, Memᴰ-append_right,
  Memᴰ-append_cases, ok, Call, ◌>>◌, >>-ok, >>-err, Result-cases, arith,
}
use golang_staterpack.Errors.{wrap_call, Error, Fault}
use golang_staterpack.Libraries.Amqp.{Amqp, Declaration, IsDeclaring, brings}

module _ {N H X K : Type 0} (amqp : Amqp N H X K) (declared : K → Declaration → Type 0) where
  -- A call that declares these and nothing else: all of them where it succeeds.
  pub record Declares (xs : List Declaration) (m : Call K Error (Unit {0})) : Type 0 where
    pub done : (k : K) (y : Declaration) → (m k).0 ≡ ok tt → Memᴰ y xs → declared (m k).1 y
    pub kept : (k : K) (y : Declaration) → declared k y → declared (m k).1 y
    pub framed : (k : K) (y : Declaration) → declared (m k).1 y → declared k y ⊎ Memᴰ y xs

  early :
      (xs ys : List Declaration) (k : K) (y : Declaration)
      → declared k y ⊎ Memᴰ y xs
      → declared k y ⊎ Memᴰ y (xs ++ ys)
  early xs ys k y (inl old) = inl old
  early xs ys k y (inr at) = inr (Memᴰ-append_left xs ys y at)

  later :
      (xs ys : List Declaration) (k₁ k : K) (y : Declaration)
      → (declared k₁ y → declared k y ⊎ Memᴰ y xs)
      → declared k₁ y ⊎ Memᴰ y ys
      → declared k y ⊎ Memᴰ y (xs ++ ys)
  later xs ys k₁ k y back (inl old) = early xs ys k y (back old)
  later xs ys k₁ k y back (inr at) = inr (Memᴰ-append_right xs ys y at)

  module _ (server : IsDeclaring amqp declared) where
    wrap_call-ok :
        (s : String) (m : Call K Fault (Unit {0})) (k : K)
        → (wrap_call s m k).0 ≡ ok tt
        → (m k).0 ≡ ok tt
    wrap_call-ok s m k h = elim (Result-cases (m k).0) [
      | inl (_, e) ↦ e
      | inr (f, e) ↦ absurd (ground arith)
    ]

    pub Declares-one :
        (s : String) (ch : H) (x : Declaration)
        → Declares (brings x) (wrap_call s (amqp.declare ch x))
    Declares-one s ch x = record {
      done = λ k y h. server.declare_ok ch x k (wrap_call-ok s (amqp.declare ch x) k h) y;
      kept = λ k y. server.declare_keeps ch x k y;
      framed = λ k y. server.declare_only ch x k y;
    }

    pub Declares->> :
        (xs ys : List Declaration) (m n : Call K Error (Unit {0}))
        → Declares xs m
        → Declares ys n
        → Declares (xs ++ ys) (m >> n)
    Declares->> xs ys m n first rest = record {
      done = λ k y h at. elim (Result-cases (m k).0) [
        | inl (_, e) ↦
            let run = >>-ok m n k tt e in
            rw run (elim (Memᴰ-append_cases xs ys y at) [
              | inl here ↦ rest.kept (m k).1 y (first.done k y e here)
              | inr more ↦ rest.done (m k).1 y (rw run at h) more
            ])
        | inr (f, e) ↦ absurd (ground (arith, >>-err m n k f e))
      ];
      kept = λ k y old. elim (Result-cases (m k).0) [
        | inl (_, e) ↦ rw (>>-ok m n k tt e) (rest.kept (m k).1 y (first.kept k y old))
        | inr (f, e) ↦ rw (>>-err m n k f e) (first.kept k y old)
      ];
      framed = λ k y new. elim (Result-cases (m k).0) [
        | inl (_, e) ↦
            later xs ys (m k).1 k y (first.framed k y)
              (rest.framed (m k).1 y (rw (>>-ok m n k tt e) at new))
        | inr (f, e) ↦ early xs ys k y (first.framed k y (rw (>>-err m n k f e) at new))
      ];
    }
