-- ===== src/Commentd/Client/Examples.antt =====
-- The theorems on the client at a store with a pending comment between two approved ones.
use termblog.Prelude.{ℕ, ◌<◌, ◌≡◌, refl, [], ◌∷◌, none, false, ok, length, arith}
use termblog.Prelude.Text.{lit}
use termblog.Commentd.Relations.{Ascending}
use termblog.Commentd.Stored.{Status, pending, approved, StoredComment}
use termblog.Commentd.Store.{Store}
use termblog.Commentd.Client.{all_comments}
use termblog.Commentd.Client.Pages.{wanted_comments}
use termblog.Commentd.Client.Snapshot.{serving, all_comments_sound, all_comments_complete}

abbrev comment : ℕ → Status → StoredComment
comment id status = record {
  id = id;
  target = lit "/";
  author = lit "alice";
  text = lit "hi";
  reply_to_id = none;
  ip_hash = [];
  created_at = 7 ∷ [];
  status = status;
}

abbrev three_comments : Store
three_comments = record {
  data_file = [];
  salt = [];
  comments = comment 1 approved ∷ comment 2 pending ∷ comment 5 approved ∷ [];
  revision = lit "r";
  poisoned = false;
}

three_comments-Ascending : Ascending 0 three_comments.comments
three_comments-Ascending = omega arith

two_wanted : length (wanted_comments false three_comments) < 3
unfolding wanted_comments
two_wanted = omega arith

all_comments_complete_example :
    all_comments (serving false (λ n. three_comments)) 3 ≡ ok (wanted_comments false three_comments)
all_comments_complete_example =
    all_comments_complete false three_comments three_comments-Ascending 3 two_wanted

all_comments_sound_example :
    (m : ℕ) × (wanted_comments false three_comments
      ≡ wanted_comments false ((λ (n : ℕ). three_comments) m))
all_comments_sound_example =
    all_comments_sound false (λ (n : ℕ). three_comments) (λ n. three_comments-Ascending)
      (λ m n e. refl) 3 (wanted_comments false three_comments) all_comments_complete_example
