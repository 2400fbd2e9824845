-- ===== src/Repository/Reads.antt =====
-- The calls of the GORM repository that read.
use golang_staterpack.Prelude.{
  All-map, ℕ, ℤ, String, sym, ◌∙◌, pos, true, ◌≡◌, refl, inl, inr, ◌≤ℤ◌, List, Option, none, some,
  ok, err, Result-cases, All, length, Memᴰ, arith, eq_iff,
}
use golang_staterpack.Errors.{Error, not_found, is, missing, failure, wrap, external, fault_text}
use golang_staterpack.Model.{Uuid, Time, Task, pending, processing}
use golang_staterpack.Libraries.Gorm.{
  Gorm, IsTable, Same, Sorted, created_asc, created_desc, id_is, matches,
}
use golang_staterpack.Repository.Defs.{
  stale_query, stale_condition, get_by_id, find_stale, list, page,
}
use golang_staterpack.Repository.Contract.{IsStale, stale_limit}
use golang_staterpack.Repository.Rows.{row_of_ok, none_of_hits}

module _ {D : Type 0} {g : Gorm D} {row : D → Uuid → Option Task} (laws : IsTable g row) where
  pub get_ok : (i : Uuid) (d : D) (t : Task) → (get_by_id g i d).0 ≡ ok t → row d i ≡ some t
  unfolding get_by_id
  get_ok i d t h = row_of_ok laws i d t (ground (arith, laws.first_ok (id_is i) d t))

  pub get_err :
      (i : Uuid) (d : D) (e : Error)
      → (get_by_id g i d).0 ≡ err e
      → is e not_found ≡ true
      → row d i ≡ none
  unfolding get_by_id
  get_err i d e h k = elim (Result-cases (g.first (id_is i) d).0) [
    | inl (t, q) ↦ absurd (ground arith)
    | inr (missing s, q) ↦ none_of_hits laws i d (laws.first_missing (id_is i) d s q i)
    | inr (failure s, q) ↦ absurd (ground arith)
  ]

  pub get_reads : (i : Uuid) (d : D) → Same row d (get_by_id g i d).1
  unfolding get_by_id
  get_reads i d = laws.first_reads (id_is i) d

  pub list_reads : (limit offset : ℤ) (d : D) → Same row d (list g limit offset d).1
  unfolding list
  list_reads limit offset d i =
      ground (arith, laws.count_reads d i, laws.find_reads (page limit offset) (g.count d).1 i)

  list_inv :
      (limit offset : ℤ) (d : D) (ts : List Task) (total : ℕ)
      → (list g limit offset d).0 ≡ ok (ts, total)
      → (g.find (page limit offset) (g.count d).1).0 ≡ ok ts
  unfolding list
  list_inv limit offset d ts total h = elim (Result-cases (g.count d).0) [
    | inr (x, q) ↦ absurd (ground arith)
    | inl (n, q) ↦ elim (Result-cases (g.find (page limit offset) (g.count d).1).0) [
      | inl (us, r) ↦ ground arith
      | inr (x, r) ↦ absurd (ground arith)
    ]
  ]

  -- A page holds rows, newest first, and no more than its limit.
  pub list_ok :
      (limit offset : ℤ) (d : D) (ts : List Task) (total : ℕ)
      → (list g limit offset d).0 ≡ ok (ts, total)
      → pos 0 ≤ℤ limit
      → All (λ t. row d t.id ≡ some t) ts × Sorted created_desc ts × (pos (length ts) ≤ℤ limit)
  list_ok limit offset d ts total h bound =
      let (all, sorted, short) =
        laws.find_ok (page limit offset) (g.count d).1 ts (list_inv limit offset d ts total h)
          bound in
      (All-map (λ t p. sym (laws.count_reads d t.id) ∙ p.0) ts all, sorted, short)

  -- The first page, if it is not full, holds every row.
  pub list_all :
      (limit : ℤ) (d : D) (ts : List Task) (total : ℕ)
      → (list g limit (pos 0) d).0 ≡ ok (ts, total)
      → ¬ (limit ≤ℤ pos (length ts))
      → (i : Uuid) (t : Task) → row d i ≡ some t
      → Memᴰ t ts
  list_all limit d ts total h short i t e =
      laws.find_all (page limit (pos 0)) (g.count d).1 ts (list_inv limit (pos 0) d ts total h) refl
        short i t (laws.count_reads d i ∙ e) refl

  pub list_fault :
      (limit offset : ℤ) (d : D) (e : Error)
      → (list g limit offset d).0 ≡ err e
      → (s text : String) × (e ≡ wrap s (external text))
  unfolding list
  list_fault limit offset d e h = elim (Result-cases (g.count d).0) [
    | inr (x, q) ↦ ("count tasks", fault_text x, ground arith)
    | inl (n, q) ↦ elim (Result-cases (g.find (page limit offset) (g.count d).1).0) [
      | inl (us, r) ↦ absurd (ground arith)
      | inr (x, r) ↦ ("list tasks", fault_text x, ground arith)
    ]
  ]

  -- A statement on one key, seen from each row.
  pub IsStale-of_matches :
      (pb qb : Time) (t : Task) → matches (stale_condition pb qb) t ≡ true → IsStale pb qb t
  IsStale-of_matches pb qb t h = ground (arith, eq_iff t.status pending, eq_iff t.status processing)

  pub matches_of_stale :
      (pb qb : Time) (t : Task) → IsStale pb qb t → matches (stale_condition pb qb) t ≡ true
  matches_of_stale pb qb t h = ground (arith, eq_iff t.status pending, eq_iff t.status processing)

  pub stale_limit_nonneg : (limit : ℤ) → pos 0 ≤ℤ stale_limit limit
  stale_limit_nonneg limit = ground arith

  pub find_stale_inv :
      (pb qb : Time) (limit : ℤ) (d : D) (ts : List Task)
      → (find_stale g pb qb limit d).0 ≡ ok ts
      → (g.find (stale_query pb qb limit) d).0 ≡ ok ts
  unfolding find_stale
  find_stale_inv pb qb limit d ts h = ground arith

  pub find_stale_ok :
      (pb qb : Time) (limit : ℤ) (d : D) (ts : List Task)
      → (find_stale g pb qb limit d).0 ≡ ok ts
      → All (λ t. (row d t.id ≡ some t) × IsStale pb qb t) ts
        × Sorted created_asc ts
        × (pos (length ts) ≤ℤ stale_limit limit)
  find_stale_ok pb qb limit d ts h =
      let (all, sorted, short) =
        laws.find_ok (stale_query pb qb limit) d ts (find_stale_inv pb qb limit d ts h)
          (stale_limit_nonneg limit) in
      (All-map (λ t p. (p.0, IsStale-of_matches pb qb t p.1)) ts all, sorted, short)

  pub find_stale_all :
      (pb qb : Time) (limit : ℤ) (d : D) (ts : List Task)
      → (find_stale g pb qb limit d).0 ≡ ok ts
      → ¬ (stale_limit limit ≤ℤ pos (length ts))
      → (i : Uuid) (t : Task) → row d i ≡ some t
      → IsStale pb qb t
      → Memᴰ t ts
  find_stale_all pb qb limit d ts h short i t e stale =
      laws.find_all (stale_query pb qb limit) d ts (find_stale_inv pb qb limit d ts h) refl short i
        t e (matches_of_stale pb qb t stale)

  pub find_stale_reads :
      (pb qb : Time) (limit : ℤ) (d : D) → Same row d (find_stale g pb qb limit d).1
  unfolding find_stale
  find_stale_reads pb qb limit d = laws.find_reads (stale_query pb qb limit) d
