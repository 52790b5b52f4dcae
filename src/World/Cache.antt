-- ===== src/World/Cache.antt =====
-- The commands of Redis that the services issue, as actions: each is one call, which may fail.
use clip_sync_admin.Prelude.{ℕ, String, Bool, true, false, Option, none, some}
use clip_sync_admin.Reply.{raw, ok, err}
use clip_sync_admin.World.Monad.{Value, M, tick}

abbrev pub cache_get : String → M (Option Value)
cache_get k env w = elim (env.fault w.calls) [
  | some e ↦ (err (raw e), tick w)
  | none ↦ (ok (env.redis.get w.now k w.redis), tick w)
]

abbrev pub cache_exists : String → M Bool
cache_exists k env w = elim (env.fault w.calls) [
  | some e ↦ (err (raw e), tick w)
  | none ↦ (ok (elim (env.redis.get w.now k w.redis) [ none ↦ false | some _ ↦ true ]), tick w)
]

abbrev pub cache_set : String → Value → ℕ → M (Unit {0})
cache_set k v ttl env w = elim (env.fault w.calls) [
  | some e ↦ (err (raw e), tick w)
  | none ↦ (ok tt, record (tick w) { redis = env.redis.set w.now k v ttl w.redis })
]

abbrev pub cache_set_nx : String → Value → ℕ → M Bool
cache_set_nx k v ttl env w = elim (env.fault w.calls) [
  | some e ↦ (err (raw e), tick w)
  | none ↦
      let (fresh, c) = env.redis.set_nx w.now k v ttl w.redis in
      (ok fresh, record (tick w) { redis = c })
]

abbrev pub cache_del : String → M (Unit {0})
cache_del k env w = elim (env.fault w.calls) [
  | some e ↦ (err (raw e), tick w)
  | none ↦ (ok tt, record (tick w) { redis = env.redis.del k w.redis })
]

abbrev pub cache_incr : String → M ℕ
cache_incr k env w = elim (env.fault w.calls) [
  | some e ↦ (err (raw e), tick w)
  | none ↦ let (n, c) = env.redis.incr w.now k w.redis in (ok n, record (tick w) { redis = c })
]

abbrev pub cache_expire : String → ℕ → M (Unit {0})
cache_expire k ttl env w = elim (env.fault w.calls) [
  | some e ↦ (err (raw e), tick w)
  | none ↦ (ok tt, record (tick w) { redis = env.redis.expire w.now k ttl w.redis })
]
