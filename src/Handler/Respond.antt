-- ===== src/Handler/Respond.antt =====
-- internal/handler/common.go: how a handler answers.
use clip_sync_admin.Prelude.{Option, none}
use clip_sync_admin.Reply.{
  Response, success, fail_with, Error, biz, raw, ok, err, code_internal_error,
}
use clip_sync_admin.World.{Env, World, M}

-- `respBiz`
unfoldable pub resp_biz : {A : Type 0} → Error → Response A
unfolding fail_with
resp_biz (biz code message) = fail_with code message
resp_biz (raw message) = fail_with code_internal_error message

-- A handler's result: the response, and the world that it leaves.
abbrev pub Handled : Type 0 → Type 0
Handled A = Env → World → Response A × World

-- `if err != nil { respBiz(c, err); return }; result.Success(c, ...)`
unfoldable pub respond : {A B : Type 0} → M A → (A → Option B) → Handled B
unfolding resp_biz success
respond m payload env w =
    let (r, w') = m env w in elim r [ ok a ↦ (success (payload a), w') | err e ↦ (resp_biz e, w') ]

abbrev pub no_payload : {A : Type 0} → A → Option (Unit {0})
no_payload _ = none
