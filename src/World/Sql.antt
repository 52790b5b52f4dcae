-- ===== src/World/Sql.antt =====
-- The statements that the services build with gorm, over a table of the database. A call that the
-- environment fails changes nothing; `wrap` is how the caller turns the error's text into an error.
use clip_sync_admin.Prelude.{
  ◌&&◌, ℕ, not, String, Bool, ◌||◌, Option, none, some, List, [], ◌∷◌, ◌++◌, map, length, filter,
  any, head?, map_where, ◌==◌, nat_eq, if◌then◌else◌,
}
use clip_sync_admin.Reply.{Error, biz, raw, ok, err, code_db_error}
use clip_sync_admin.Model.{Db}
use clip_sync_admin.World.Monad.{Env, World, M, tick}

-- A table: its rows in the database, their primary key, and a unique index.
pub record Table (Row : Type 0) : Type 0 where
  pub rows : Db → List Row
  pub put : List Row → Db → Db
  pub key : Row → ℕ
  pub with_key : ℕ → Row → Row
  pub clash : Row → Row → Bool

-- `biz(result.CodeDBError, err.Error())`
abbrev pub db_error : String → Error
db_error message = biz code_db_error message

module _ {Row : Type 0} (t : Table Row) where
  -- `Find`, `Pluck`: the rows that a condition selects.
  abbrev pub select : (String → Error) → (Row → Bool) → M (List Row)
  select wrap p env w = elim (env.fault w.calls) [
    | some e ↦ (err (wrap e), tick w)
    | none ↦ (ok (filter p (t.rows w.db)), tick w)
  ]

  -- `First`: the first row by primary key, or `none` for `gorm.ErrRecordNotFound`.
  abbrev pub first : (String → Error) → (Row → Bool) → M (Option Row)
  first wrap p env w = elim (env.fault w.calls) [
    | some e ↦ (err (wrap e), tick w)
    | none ↦ (ok (head? (filter p (t.rows w.db))), tick w)
  ]

  abbrev pub count : (String → Error) → (Row → Bool) → M ℕ
  count wrap p env w = elim (env.fault w.calls) [
    | some e ↦ (err (wrap e), tick w)
    | none ↦ (ok (length (filter p (t.rows w.db))), tick w)
  ]

  -- `Update`, `Updates`: the result is `RowsAffected`.
  abbrev pub update : (String → Error) → (Row → Bool) → (Row → Row) → M ℕ
  update wrap p f env w = elim (env.fault w.calls) [
    | some e ↦ (err (wrap e), tick w)
    | none ↦ (
      ok (env.affected w.calls (length (filter p (t.rows w.db)))),
      record (tick w) { db = t.put (map_where p f (t.rows w.db)) w.db },
    )
  ]

  -- Whether an UPDATE would give a selected row a value of the unique index that another row has.
  abbrev pub conflicts : (Row → Bool) → (Row → Row) → List Row → Bool
  conflicts p f rows =
      any (λ x. p x && any (λ y. not (t.key y == t.key x) && t.clash y (f x)) rows) rows

  -- An UPDATE that sets a column with a unique index.
  abbrev pub update_unique : (String → Error) → (Row → Bool) → (Row → Row) → M ℕ
  update_unique wrap p f env w =
      if conflicts p f (t.rows w.db)
      then (err (wrap (elim (env.fault w.calls) [ some e ↦ e | none ↦ "Duplicate entry" ])), tick w)
      else update wrap p f env w

  -- `Delete` of a row with no soft delete.
  abbrev pub delete : (String → Error) → (Row → Bool) → M ℕ
  delete wrap p env w = elim (env.fault w.calls) [
    | some e ↦ (err (wrap e), tick w)
    | none ↦ (
      ok (env.affected w.calls (length (filter p (t.rows w.db)))),
      record (tick w) { db = t.put (filter (λ x. not (p x)) (t.rows w.db)) w.db },
    )
  ]

  abbrev pub assigned : Row → Env → World → Row
  assigned r env w =
      if t.key r == 0 then t.with_key (env.auto_id w.calls (map t.key (t.rows w.db))) r else r

  -- `Create`: a zero primary key is assigned by the database; a row that clashes with another in
  -- the primary key or in the unique index is refused.
  abbrev pub create : (String → Error) → Row → M Row
  create wrap r env w = elim (env.fault w.calls) [
    | some e ↦ (err (wrap e), tick w)
    | none ↦
        let new = assigned r env w in
        if any (λ x. t.key x == t.key new || t.clash x new) (t.rows w.db)
        then (err (wrap "Duplicate entry"), tick w)
        else (ok new, record (tick w) { db = t.put (t.rows w.db ++ new ∷ []) w.db })
  ]

-- `db.Transaction(body)`: BEGIN, the body, and COMMIT; an error of any of these leaves the
-- database as it was.
abbrev pub transaction : {A : Type 0} → M A → M A
transaction body env w = elim (env.fault w.calls) [
  | some e ↦ (err (raw e), tick w)
  | none ↦
      let (r, w') = body env (tick w) in
      elim r [
        | err e ↦ (err e, record w' { db = w.db })
        | ok a ↦ elim (env.fault w'.calls) [
          | some e ↦ (err (raw e), record (tick w') { db = w.db })
          | none ↦ (ok a, tick w')
        ]
      ]
]
