-- ===== src/Tests/Redis.antt =====
-- A Redis that keeps its laws: the contents as a function, changed at a key.
use clip_sync_admin.Prelude.{
  ℕ, suc, ◌≡◌, refl, not, String, Option, some, none, arith, eq_iff, ◌==◌, nat_eq, string_eq,
  if◌then◌else◌,
}
use clip_sync_admin.World.{Value, num, text, Entry, Contents, Redis}
use clip_sync_admin.World.Laws.{IsRedis, is_live, live_value, deadline_after, expired_after}

abbrev stored : ℕ → Value → ℕ → Option Entry
stored now v ttl = some (record { value = v; deadline = deadline_after now ttl })

abbrev at : String → Option Entry → Contents → Contents
at k e c j = if k == j then e else c j

-- The counter and the entry after an INCR.
abbrev bump : Option Entry → ℕ × Entry
bump none = (1, record { value = num 1; deadline = none })
bump (some e) = elim e.value [
  | num n ↦ (suc n, record e { value = num (suc n) })
  | text s ↦ (1, record { value = num 1; deadline = none })
]

abbrev live_entry : ℕ → Option Entry → Option Entry
live_entry now e = if is_live now e then e else none

abbrev pub memory : Redis
memory = record {
  get = λ now k c. live_value now (c k);
  set = λ now k v ttl c. at k (stored now v ttl) c;
  set_nx = λ now k v ttl c.
      (not (is_live now (c k)), at k (if is_live now (c k) then c k else stored now v ttl) c);
  del = λ k c. at k none c;
  incr = λ now k c. let (n, e) = bump (live_entry now (c k)) in (n, at k (some e) c);
  expire = λ now k ttl c. at k (expired_after now ttl (c k)) c;
}

fresh_bump : (now : ℕ) (e : Option Entry) → live_value now e ≡ none → live_entry now e ≡ none
fresh_bump now none h = refl
fresh_bump now (some e) h = ground arith

pub memory-IsRedis : IsRedis memory
memory-IsRedis = record {
  get_live = λ now k c. refl;
  set_at = λ now k v ttl c j. refl;
  set_nx_fresh = λ now k v ttl c. refl;
  set_nx_at = λ now k v ttl c j. refl;
  del_at = λ k c j. refl;
  incr_fresh = λ now k c h. ground (arith, fresh_bump now (c k) h, eq_iff k k);
  incr_next = λ now k c n t h live. ground (arith, h, live, eq_iff k k);
  incr_ne = λ now k c j ne. ground (arith, eq_iff k j, ne);
  expire_at = λ now k ttl c j. refl;
}
