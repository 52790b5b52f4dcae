-- ===== src/World/Laws.antt =====
-- What the development relies on where it speaks of Redis: the documented meaning of its commands.
use clip_sync_admin.Prelude.{
  suc, arith, eq_iff, ◌≢◌, ℕ, ◌+◌, ◌≡◌, String, Bool, true, false, not, Option, none, some, ltb,
  ◌==◌, nat_eq, string_eq, if◌then◌else◌,
}
use clip_sync_admin.World.Monad.{num, Value, Entry, Contents, Redis, Env}

-- Every call of the database and of Redis is answered.
abbrev pub NoFault : Env → Type 0
NoFault env = (n : ℕ) → env.fault n ≡ none

-- Whether an entry is still there at a time.
abbrev pub is_live : ℕ → Option Entry → Bool
is_live now none = false
is_live now (some e) = elim e.deadline [ none ↦ true | some t ↦ ltb now t ]

abbrev pub live_value : ℕ → Option Entry → Option Value
live_value now none = none
live_value now (some e) = if is_live now (some e) then some e.value else none

-- The deadline of a key that is set with a time to live; 0 is none.
abbrev pub deadline_after : ℕ → ℕ → Option ℕ
deadline_after now ttl = if ttl == 0 then none else some (now + ttl)

-- The entry of a key that EXPIRE has given a time to live; a time of 0 deletes the key.
abbrev pub expired_after : ℕ → ℕ → Option Entry → Option Entry
expired_after now ttl none = none
expired_after now ttl (some e) =
    if is_live now (some e)
    then (if ttl == 0 then none else some (record e { deadline = some (now + ttl) }))
    else none

pub record IsRedis (r : Redis) : Type 0 where
  pub get_live : (now : ℕ) (k : String) (c : Contents) → r.get now k c ≡ live_value now (c k)
  pub set_at :
      (now : ℕ) (k : String) (v : Value) (ttl : ℕ) (c : Contents) (j : String)
      → r.set now k v ttl c j
        ≡ (if k == j then some (record { value = v; deadline = deadline_after now ttl }) else c j)
  pub set_nx_fresh :
      (now : ℕ) (k : String) (v : Value) (ttl : ℕ) (c : Contents)
      → (r.set_nx now k v ttl c).0 ≡ not (is_live now (c k))
  pub set_nx_at :
      (now : ℕ) (k : String) (v : Value) (ttl : ℕ) (c : Contents) (j : String)
      → (r.set_nx now k v ttl c).1 j ≡ (
          if k == j
          then (if is_live now (c k)
              then c k
              else some (record { value = v; deadline = deadline_after now ttl }))
          else c j)
  pub del_at :
      (k : String) (c : Contents) (j : String) → r.del k c j ≡ (if k == j then none else c j)
  pub incr_fresh :
      (now : ℕ) (k : String) (c : Contents)
      → live_value now (c k) ≡ none
      → ((r.incr now k c).0 ≡ 1)
        × ((r.incr now k c).1 k ≡ some (record { value = num 1; deadline = none }))
  pub incr_next :
      (now : ℕ) (k : String) (c : Contents) (n : ℕ) (t : Option ℕ)
      → c k ≡ some (record { value = num n; deadline = t })
      → is_live now (c k) ≡ true
      → ((r.incr now k c).0 ≡ suc n)
        × ((r.incr now k c).1 k ≡ some (record { value = num (suc n); deadline = t }))
  pub incr_ne :
      (now : ℕ) (k : String) (c : Contents) (j : String) → k ≢ j → (r.incr now k c).1 j ≡ c j
  pub expire_at :
      (now : ℕ) (k : String) (ttl : ℕ) (c : Contents) (j : String)
      → r.expire now k ttl c j ≡ (if k == j then expired_after now ttl (c k) else c j)

module _ (r : Redis) (laws : IsRedis r) where
  pub del_self : (k : String) (c : Contents) → r.del k c k ≡ none
  del_self k c = ground (arith, laws.del_at k c k, eq_iff k k)

  pub del_ne : (k j : String) (c : Contents) → k ≢ j → r.del k c j ≡ c j
  del_ne k j c ne = ground (arith, laws.del_at k c j, eq_iff k j)

  pub set_self :
      (now : ℕ) (k : String) (v : Value) (ttl : ℕ) (c : Contents)
      → r.set now k v ttl c k ≡ some (record { value = v; deadline = deadline_after now ttl })
  set_self now k v ttl c = ground (arith, laws.set_at now k v ttl c k, eq_iff k k)

  pub set_ne :
      (now : ℕ) (k j : String) (v : Value) (ttl : ℕ) (c : Contents)
      → k ≢ j
      → r.set now k v ttl c j ≡ c j
  set_ne now k j v ttl c ne = ground (arith, laws.set_at now k v ttl c j, eq_iff k j)

  pub expire_ne :
      (now : ℕ) (k j : String) (ttl : ℕ) (c : Contents) → k ≢ j → r.expire now k ttl c j ≡ c j
  expire_ne now k j ttl c ne = ground (arith, laws.expire_at now k ttl c j, eq_iff k j)
