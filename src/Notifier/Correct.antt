-- ===== src/Notifier/Correct.antt =====
-- What becomes of a command for the Server (internal/service/server_notifier.go).
use Prim.Native.String.{◌++◌}
use clip_sync_admin.Prelude.{
  ℕ, ◌<◌, String, ◌≡◌, ◌≢◌, ◌⊎◌, inl, inr, refl, true, false, some, none, arith, eq_iff, ◌==◌,
  nat_eq, string_eq, Bool-cases, Option-cases,
}
use clip_sync_admin.Reply.{ok}
use clip_sync_admin.World.{
  Env, World, tick, send, AdminCommand, Message, published, posted, HttpAnswer, unbuilt,
  unreachable, answered, cut,
}
use clip_sync_admin.Notifier.{
  ServerNotifier, channel, status_of, http_verdict, command_via_http, send_over_http, send_command,
}

-- The message of a command over HTTP.
abbrev pub over_http : ServerNotifier → AdminCommand → Message
over_http n cmd = posted (n.cfg.addr ++ "/server-admin/kick") n.cfg.http_admin_token cmd

-- What `sendCommand` owes its caller: a command that is reported as sent has left, by one message at
-- the end of what was sent, over Redis where Redis took it, and otherwise over HTTP to an address
-- that is set, with an answer below 400.
abbrev pub IsDelivered : ServerNotifier → AdminCommand → Env → World → World → Type 0
IsDelivered n cmd env w w' =
    ((n.has_rdb ≡ true)
      × (env.fault w.calls ≡ none)
      × (w'.sent ≡ (send (published (channel n) cmd) w).sent))
    ⊎ (((n.has_rdb ≡ false) ⊎ ((x : String) × (env.fault w.calls ≡ some x)))
        × (n.cfg.addr ≢ "")
        × (w'.sent ≡ (send (over_http n cmd) w).sent)
        × ((i : ℕ) × (status : ℕ) × (status_of (env.http_do i (over_http n cmd)) ≡ some status)
            × (status < 400)))

http_verdict-ok :
    (a : HttpAnswer)
    → http_verdict a ≡ ok tt
    → (status : ℕ) × (status_of a ≡ some status) × (status < 400)
unfolding http_verdict
http_verdict-ok (unbuilt e) h = absurd (ground arith)
http_verdict-ok (unreachable e) h = absurd (ground arith)
http_verdict-ok (answered status body) h = (status, refl, ground arith)
http_verdict-ok (cut status body e) h = (status, refl, ground arith)

send_over_http-ok :
    (n : ServerNotifier) (cmd : AdminCommand) (env : Env) (w : World)
    → (send_over_http n cmd env w).0 ≡ ok tt
    → (n.cfg.addr ≢ "")
      × ((send_over_http n cmd env w).1.sent ≡ (send (over_http n cmd) w).sent)
      × ((status : ℕ) × (status_of (env.http_do w.calls (over_http n cmd)) ≡ some status)
          × (status < 400))
unfolding send_over_http command_via_http
send_over_http-ok n cmd env w h = elim (Bool-cases (n.cfg.addr == "")) [
  | inl e ↦ absurd (ground (arith, h, e))
  | inr e ↦
      let a = env.http_do w.calls (over_http n cmd) in
      let (status, got, low) = http_verdict-ok a (ground (arith, h, e)) in
      (ground (arith, e, eq_iff n.cfg.addr ""), ground (arith, e, got), (status, got, low))
]

-- `sendCommand` reports success only for a command that has left, as `IsDelivered` says: over
-- Redis, or else over HTTP with an answer below 400.
pub send_command-delivers :
    (n : ServerNotifier) (cmd : AdminCommand) (env : Env) (w : World)
    → (send_command n cmd env w).0 ≡ ok tt
    → IsDelivered n cmd env w (send_command n cmd env w).1
unfolding send_command
send_command-delivers n cmd env w h = elim (Bool-cases n.has_rdb) [
  | inr off ↦
      let (addr, sent, (status, got, low)) =
        send_over_http-ok n cmd env w (ground (arith, h, off)) in
      inr (inl off, addr, ground (arith, sent, off), (w.calls, status, got, low))
  | inl on ↦ elim (Option-cases (env.fault w.calls)) [
    | inl up ↦ inl (on, up, ground (arith, on, up))
    | inr (x, down) ↦
        let (addr, sent, (status, got, low)) =
          send_over_http-ok n cmd env (tick w) (ground (arith, h, on, down)) in
        inr
          (inr (x, down), addr, ground (arith, sent, on, down), ((tick w).calls, status, got, low))
  ]
]
