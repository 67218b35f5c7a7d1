-- ===== src/Redis/App.antt =====
-- `app-acquire`, `app-renew` and `app-release` of redis/scripts.ts: the lease of the application.
use whats_app_mcp_server.Base.{ℕ, ◌+◌, not, none, some, ltb, if◌then◌else◌, length, Text}
use whats_app_mcp_server.Redis.Decimal.{inc}
use whats_app_mcp_server.Redis.Store.{
  App, Store, or_zero, ms_or_zero, Reply, ok, busy, lost, renewed, app_alive,
}

module _ {S : Type 0} where
  abbrev with_app : Store S → App → Store S
  with_app s a = record s { app = a }

  unfoldable pub app_acquire : Store S → ℕ → Text → ℕ → Store S × Reply
  app_acquire s now owner ms =
      if ltb now (ms_or_zero s.app.deadline)
      then (s, busy)
      else let epoch = inc (or_zero s.app.epoch) in
        if ltb 32 (length epoch) then (s, lost) else (
          with_app s (record (s.app) {
            owner = some owner;
            epoch = some epoch;
            deadline = some (now + ms);
          }),
          renewed (some epoch) (now + ms),
        )

  unfoldable pub app_renew : Store S → ℕ → Text → Text → ℕ → Store S × Reply
  app_renew s now owner epoch ms = if not (app_alive s now owner epoch) then (s, lost) else (
    with_app s (record (s.app) { deadline = some (now + ms) }),
    renewed s.app.epoch (now + ms),
  )

  unfoldable pub app_release : Store S → ℕ → Text → Text → Store S × Reply
  app_release s now owner epoch =
      if not (app_alive s now owner epoch)
      then (s, lost)
      else (with_app s (record (s.app) { owner = none; deadline = none }), ok)
