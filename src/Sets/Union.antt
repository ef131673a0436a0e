-- ===== src/Sets/Union.antt =====
-- src/core/DataStore.js: SUNION, by what a client can see of its keys.
use redis_clone_js.Prelude.Text.{Text}
use redis_clone_js.SetOf
use redis_clone_js.Store.{Store}
use redis_clone_js.Sets.Looped.{Looped}
