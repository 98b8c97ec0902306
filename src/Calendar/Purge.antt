-- ===== src/Calendar/Purge.antt =====
-- `purge_expired_history` of api/vault.rs, on every unlock: the expired records of each entry go. An
-- expiry that cannot be sliced is `none`, where Rust panics.
use gabbro.Entry.{HistoryRecord, VaultEntry, meta_of, with_meta}
use gabbro.Prelude.{List, Option, [], if◌then◌else◌, some, ℕ, ◌∷◌}
use gabbro.Calendar.Timestamps.{is_expired}
use gabbro.Prelude.Options.{◌>>=◌}

unfoldable pub unexpired : ℕ → List HistoryRecord → Option (List HistoryRecord)
unfolding is_expired
unexpired today [] = some []
unexpired today (h ∷ hs) = do
  expired ← is_expired today h.expires_at
  rest ← unexpired today hs
  some (if expired then rest else h ∷ rest)

unfoldable pub purge_expired_history : ℕ → List VaultEntry → Option (List VaultEntry)
unfolding unexpired
purge_expired_history today [] = some []
purge_expired_history today (e ∷ es) = do
  history ← unexpired today (meta_of e).history
  rest ← purge_expired_history today es
  some (with_meta (λ m. record m { history = history }) e ∷ rest)
