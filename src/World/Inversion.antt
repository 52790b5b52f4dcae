-- ===== src/World/Inversion.antt =====
-- Actions taken apart: what the success of a composed action says of its parts.
use clip_sync_admin.Prelude.{
  ap, ℕ, String, Bool, Option, head?, filter, length, ◌≡◌, ◌⊎◌, inl, inr, refl, arith, Option-cases,
}
use clip_sync_admin.Reply.{Error, Outcome, ok, err}
use clip_sync_admin.World.Monad.{Env, World, M, ◌>>=◌, tick}
use clip_sync_admin.World.Sql.{Table, first, count, transaction}

pub Outcome-cases :
    {A : Type 0} (r : Outcome A) → ((a : A) × (r ≡ ok a)) ⊎ ((e : Error) × (r ≡ err e))
Outcome-cases (ok a) = inl (a, refl)
Outcome-cases (err e) = inr (e, refl)

pub >>=-ok :
    {A B : Type 0} (m : M A) (f : A → M B) (env : Env) (w : World) {b : B}
    → ((m >>= f) env w).0 ≡ ok b
    → (a : A) × ((m env w).0 ≡ ok a) × ((m >>= f) env w ≡ f a env (m env w).1)
>>=-ok m f env w {b} h = elim (Outcome-cases (m env w).0) [
  | inl (a, e) ↦ (a, e, rw (e, ◌>>=◌))
  | inr (e, x) ↦ absurd (ground arith)
]

pub >>=-runs :
    {A B : Type 0} (m : M A) (f : A → M B) (env : Env) (w w' : World) (a : A)
    → m env w ≡ (ok a, w')
    → (m >>= f) env w ≡ f a env w'
>>=-runs m f env w w' a e = rw (◌>>=◌, ap (λ o. o.0) e, ap (λ o. o.1) e) refl

-- What a query that is answered says.
module _ {Row : Type 0} (t : Table Row) (p : Row → Bool) (env : Env) (w : World) where
  pub first-ok :
      (wrap : String → Error) (found : Option Row)
      → (first t wrap p env w).0 ≡ ok found
      → (head? (filter p (t.rows w.db)) ≡ found) × ((first t wrap p env w).1 ≡ tick w)
  first-ok wrap found h = elim (Option-cases (env.fault w.calls)) [
    | inr (x, down) ↦ absurd (ground (arith, down, h))
    | inl up ↦ (ground (arith, up, h), ground (arith, up))
  ]

  pub count-ok :
      (wrap : String → Error) (n : ℕ)
      → (count t wrap p env w).0 ≡ ok n
      → (length (filter p (t.rows w.db)) ≡ n) × ((count t wrap p env w).1 ≡ tick w)
  count-ok wrap n h = elim (Option-cases (env.fault w.calls)) [
    | inr (x, down) ↦ absurd (ground (arith, down, h))
    | inl up ↦ (ground (arith, up, h), ground (arith, up))
  ]

-- A transaction that fails leaves the database as it was, and one that succeeds leaves it as its body
-- does.
pub transaction-err :
    {A : Type 0} (body : M A) (env : Env) (w : World) (e : Error)
    → (transaction body env w).0 ≡ err e
    → (transaction body env w).1.db ≡ w.db
transaction-err body env w e h = elim (Option-cases (env.fault w.calls)) [
  | inr (x, down) ↦ ground (arith, down)
  | inl up ↦ elim (Outcome-cases (body env (tick w)).0) [
    | inr (x, failed) ↦ ground (arith, up, failed)
    | inl (a, done) ↦ ground (arith, up, done, h)
  ]
]

pub transaction-ok :
    {A : Type 0} (body : M A) (env : Env) (w : World) (a : A)
    → (transaction body env w).0 ≡ ok a
    → ((body env (tick w)).0 ≡ ok a) × ((transaction body env w).1.db ≡ (body env (tick w)).1.db)
transaction-ok body env w a h = elim (Option-cases (env.fault w.calls)) [
  | inr (x, down) ↦ absurd (ground (arith, down, h))
  | inl up ↦ elim (Outcome-cases (body env (tick w)).0) [
    | inr (x, failed) ↦ absurd (ground (arith, up, failed, h))
    | inl (b, done) ↦ (ground (arith, up, done, h), ground (arith, up, done, h))
  ]
]
