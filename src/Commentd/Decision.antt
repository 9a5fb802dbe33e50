-- ===== src/Commentd/Decision.antt =====
-- The decision of `Store::moderate` on one comment (crates/servers/commentd/src/store.rs).
use termblog.Prelude.{ℕ, Bool, ◌&&◌, ◌==◌, if◌then◌else◌, List, any}
use termblog.Commentd.Stored.{approved, deleted, is_pending, StoredComment}

abbrev pub listed : ℕ → List ℕ → Bool
listed id = any (λ i. i == id)

-- the test of the loop of `moderate`
abbrev pub chosen : List ℕ → StoredComment → Bool
chosen ids c = is_pending c.status && listed c.id ids

-- one round of the loop of `moderate`
unfoldable pub decide : List ℕ → Bool → StoredComment → StoredComment
decide ids approve c =
    if chosen ids c then record c { status = if approve then approved else deleted } else c
