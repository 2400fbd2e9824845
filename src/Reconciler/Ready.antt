-- ===== src/Reconciler/Ready.antt =====
-- What a sweep does to the rows of its batch.
use golang_staterpack.Prelude.{
  ℕ, suc, ◌+◌, ◌≤◌, pos, ◌-ℤ◌, ◌≤ℤ◌, true, ◌≡◌, refl, sym, ◌∙◌, ◌≢◌, ◌⊎◌, inl, inr, List, [], ◌∷◌,
  Option, none, some, Result, ok, err, Result-cases, Bool-cases, ◌==◌, str_eq, eq_iff, ==_refl,
  arith, All, All-map, length, Memᴰ, subst,
}
use mathlib.Core.Option
use golang_staterpack.Errors.{Error}
use golang_staterpack.Model.{Uuid, Time, Task, pending, processing}
use golang_staterpack.Repository.Contract.{
  IsContract, Rewrites, restatus, is_pending, IsStale, stale_limit,
}
use golang_staterpack.Service.Defs.{
  TaskService, World, Stamp, mark_pending, republish_created, find_stale,
}
use golang_staterpack.Service.Claiming.{mark_pending_inv, republish_db}
use golang_staterpack.Reconciler.Defs.{StaleTasks, stale_tasks, Options, rescue, sweep, tally}
use golang_staterpack.Reconciler.Rescue.{rescue-le}

-- A row that the batch of the sweep can make claimable: it is pending, or it is there and the
-- snapshot says `processing`.
abbrev pub IsRescuable : Task → Option Task → Type 0
IsRescuable t o = (is_pending o ≡ true) ⊎ ((t.status ≡ processing) × (o ≢ none))

is_pending-restatus :
    (now : Time) (o : Option Task)
    → o ≢ none
    → is_pending (Option.map (restatus pending "" now) o) ≡ true
is_pending-restatus now none there = absurd (there refl)
is_pending-restatus now (some t) there = refl

-- A count that reaches its bound has missed nothing.
tally-full :
    (r : Result Error (Unit {0})) (n l m : ℕ)
    → m ≤ tally r n + l
    → m ≡ n + suc l
    → (r ≡ ok tt) × (m ≡ tally r n + l)
tally-full (ok tt) n l m high full = (refl, omega arith)
tally-full (err e) n l m high full = absurd (omega arith)

All-Memᴰ : (P : Task → Type 0) (t : Task) (ts : List Task) → All P ts → Memᴰ t ts → P t
All-Memᴰ P t [] all m = elim m [ ]
All-Memᴰ P t (u ∷ ts) (p, ps) (Memᴰ.head e) = subst P (sym e) p
All-Memᴰ P t (u ∷ ts) (p, ps) (Memᴰ.tail m) = All-Memᴰ P t ts ps m

module _ {D C B : Type 0} (s : TaskService D C B) (row : D → Uuid → Option Task)
    (contract : IsContract s.repo row) where
  -- What a republish of the task j does to the row of i: nothing, or a reset of its own row.
  abbrev Reset : Uuid → Uuid → Option Task → Option Task → Type 0
  Reset j i o o' =
      (o' ≡ o) ⊎ ((now : Time) × (i ≡ j) × (o' ≡ Option.map (restatus pending "" now) o))

  Reset-Rewrites :
      (i j : Uuid) (d d' : D)
      → Rewrites row j (restatus pending "") d d'
      → Reset j i (row d i) (row d' i)
  Reset-Rewrites i j d d' (now, effect) = elim (Bool-cases (i == j)) [
    | inl e ↦ inr (now, ground arith, effect i ∙ rw e refl)
    | inr e ↦ inl (effect i ∙ rw e refl)
  ]

  mark_pending-Reset :
      (i j : Uuid) (w : World D C B) → Reset j i (row w.db i) (row (mark_pending s j w).1.db i)
  mark_pending-Reset i j w =
      let (_, db, _) = mark_pending_inv s j w in
      let d' = (s.repo.update_status j pending "" w.db).1 in
      let reset : Reset j i (row w.db i) (row d' i) =
        elim (Result-cases (s.repo.update_status j pending "" w.db).0) [
          | inl (tt, e) ↦
              Reset-Rewrites i j w.db d' (contract.update_status_ok j pending "" w.db e).1
          | inr (x, e) ↦ elim (contract.update_status_err j pending "" w.db x e).1 [
            | inl same ↦ inl (same i)
            | inr effect ↦ Reset-Rewrites i j w.db d' effect
          ]
        ] in
      rw db reset

  republish_db_any :
      (stamp : Stamp) (t : Task) (w : World D C B)
      → ((republish_created s stamp t w).1.db ≡ (mark_pending s t.id w).1.db)
        ⊎ ((republish_created s stamp t w).1.db ≡ w.db)
  unfolding republish_created
  republish_db_any stamp t w = elim (Bool-cases (str_eq t.status processing)) [
    | inl e ↦ inl (ground arith)
    | inr e ↦ inr (ground arith)
  ]

  republish-Reset :
      (stamp : Stamp) (t : Task) (i : Uuid) (w : World D C B)
      → Reset t.id i (row w.db i) (row (republish_created s stamp t w).1.db i)
  republish-Reset stamp t i w = elim (republish_db_any stamp t w) [
    | inl e ↦ rw e (mark_pending-Reset i t.id w)
    | inr e ↦ rw e (inl refl)
  ]

  Reset-pending :
      (j i : Uuid) (o o' : Option Task)
      → Reset j i o o'
      → is_pending o ≡ true
      → is_pending o' ≡ true
  Reset-pending j i o o' (inl e) h = rw e h
  Reset-pending j i o o' (inr (now, _, e)) h =
      rw e (is_pending-restatus now o (λ gone. absurd (cc)))

  Reset-there : (j i : Uuid) (o o' : Option Task) → Reset j i o o' → o ≢ none → o' ≢ none
  Reset-there j i o o' (inl e) h gone = h (sym e ∙ gone)
  Reset-there j i o o' (inr (now, _, e)) h gone =
      let ready = is_pending-restatus now o h in absurd (cc)

  Reset-IsRescuable :
      (j i : Uuid) (t : Task) (o o' : Option Task)
      → Reset j i o o'
      → IsRescuable t o
      → IsRescuable t o'
  Reset-IsRescuable j i t o o' reset (inl h) = inl (Reset-pending j i o o' reset h)
  Reset-IsRescuable j i t o o' reset (inr (st, h)) = inr (st, Reset-there j i o o' reset h)

  republish-ready :
      (stamp : Stamp) (t : Task) (w : World D C B)
      → (republish_created s stamp t w).0 ≡ ok tt
      → IsRescuable t (row w.db t.id)
      → is_pending (row (republish_created s stamp t w).1.db t.id) ≡ true
  republish-ready stamp t w h (inl ready) =
      Reset-pending t.id t.id (row w.db t.id) _ (republish-Reset stamp t t.id w) ready
  republish-ready stamp t w h (inr (st, there)) = elim (republish_db s stamp t w h) [
    | inl (e, reset, db) ↦
        let (result, db', _) = mark_pending_inv s t.id w in
        let (_, (now, effect)) =
          contract.update_status_ok t.id pending "" w.db (sym result ∙ reset) in
        rw (db, db', effect t.id, ==_refl t.id) (is_pending-restatus now (row w.db t.id) there)
    | inr (e, db) ↦ absurd (ground (arith, eq_iff t.status processing))
  ]

  module _ (stamps : ℕ → Stamp) where
    rescue-keeps :
        (k : ℕ) (ts : List Task) (n : ℕ) (i : Uuid) (w : World D C B)
        → is_pending (row w.db i) ≡ true
        → is_pending (row (rescue (stale_tasks s) stamps k ts n w).1.db i) ≡ true
    unfolding rescue
    rescue-keeps k [] n i w h = h
    rescue-keeps k (t ∷ ts) n i w h =
        let r = republish_created s (stamps k) t w in
        rescue-keeps (suc k) ts (tally r.0 n) i r.1
          (Reset-pending t.id i (row w.db i) _ (republish-Reset (stamps k) t i w) h)

    rescue-ready :
        (k : ℕ) (ts : List Task) (n : ℕ) (w : World D C B)
        → (rescue (stale_tasks s) stamps k ts n w).0 ≡ n + length ts
        → All (λ t. IsRescuable t (row w.db t.id)) ts
        → All (λ t. is_pending (row (rescue (stale_tasks s) stamps k ts n w).1.db t.id) ≡ true) ts
    unfolding rescue
    rescue-ready k [] n w all h = tt
    rescue-ready k (t ∷ ts) n w all (first, rest) =
        let r = republish_created s (stamps k) t w in
        let (_, high) = rescue-le (stale_tasks s) stamps (suc k) ts (tally r.0 n) r.1 in
        let (done, count) = tally-full r.0 n (length ts) _ high all in
        (
          rescue-keeps (suc k) ts (tally r.0 n) t.id r.1
              (republish-ready (stamps k) t w done first),
          rescue-ready (suc k) ts (tally r.0 n) r.1 count (
              All-map
                (λ u.
                  Reset-IsRescuable t.id u.id u (row w.db u.id) _
                    (republish-Reset (stamps k) t u.id w))
                ts rest),
        )

IsStale-IsRescuable :
    (pb qb : Time) (t : Task) (o : Option Task) → o ≡ some t → IsStale pb qb t → IsRescuable t o
IsStale-IsRescuable pb qb t o held (inl (st, _)) = inl (rw held ((eq_iff t.status pending).1 st))
IsStale-IsRescuable pb qb t o held (inr (st, _)) = inr (st, λ gone. absurd (cc))

ok-injective : (a b : ℕ) (r : Result Error ℕ) → r ≡ ok a → r ≡ ok b → a ≡ b
ok-injective a b r h h' = ground arith

sweep_run :
    {W : Type 0} (tasks : StaleTasks W) (o : Options) (now : Time) (stamps : ℕ → Stamp) (w : W)
    (ts : List Task)
    → let found =
        tasks.find_stale (now -ℤ o.pending_grace) (now -ℤ o.processing_timeout) o.batch_size w in
      found.0 ≡ ok ts
      → let r = rescue tasks stamps 0 ts 0 found.1 in sweep tasks o now stamps w ≡ (ok r.0, r.1)
unfolding sweep
sweep_run tasks o now stamps w ts h = rw h refl

-- A sweep that rescues every task of a batch that is not full leaves nothing stranded: each task
-- that was stale at its time is pending afterwards, so that the next delivery can claim it.
pub sweep_ready :
    {D C B : Type 0} (s : TaskService D C B) (row : D → Uuid → Option Task)
    → IsContract s.repo row
    → (o : Options) (now : Time) (stamps : ℕ → Stamp) (w : World D C B) (ts : List Task)
    → let pb = now -ℤ o.pending_grace in
      let qb = now -ℤ o.processing_timeout in
      (s.repo.find_stale pb qb o.batch_size w.db).0 ≡ ok ts
      → ¬ (stale_limit o.batch_size ≤ℤ pos (length ts))
      → (sweep (stale_tasks s) o now stamps w).0 ≡ ok (length ts)
      → (t : Task) → row w.db t.id ≡ some t
      → IsStale pb qb t
      → is_pending (row (sweep (stale_tasks s) o now stamps w).1.db t.id) ≡ true
unfolding find_stale
sweep_ready s row contract o now stamps w ts found short full t held stale =
    let pb = now -ℤ o.pending_grace in
    let qb = now -ℤ o.processing_timeout in
    let w₁ = (find_stale s pb qb o.batch_size w).1 in
    let same = contract.find_stale_reads pb qb o.batch_size w.db in
    let run = sweep_run (stale_tasks s) o now stamps w ts found in
    let rescued = rescue (stale_tasks s) stamps 0 ts 0 w₁ in
    let count : rescued.0 ≡ length ts = ok-injective rescued.0 (length ts) _ (rw run refl) full in
    let rescuable : All (λ u. IsRescuable u (row w₁.db u.id)) ts =
      All-map (λ u (h, old). IsStale-IsRescuable pb qb u (row w₁.db u.id) (same u.id ∙ h) old) ts
        (contract.find_stale_ok pb qb o.batch_size w.db ts found).0 in
    let ready = rescue-ready s row contract stamps 0 ts 0 w₁ (count ∙ omega arith) rescuable in
    rw run (
      All-Memᴰ (λ u. is_pending (row rescued.1.db u.id) ≡ true) t ts ready
        (contract.find_stale_all pb qb o.batch_size w.db ts found short t.id t held stale))
