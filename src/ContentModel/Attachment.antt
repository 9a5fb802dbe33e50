-- ===== src/ContentModel/Attachment.antt =====
-- `CommentAttachment`: a configured comment FIFO and its target.
use termblog.Prelude.{false, ◌++◌, Result, ok, ◌>>◌, is_empty, if◌then◌else◌}
use termblog.Prelude.Text.{Str, lit}
use termblog.ContentModel.Validate.{
  PathModelError, Checked, comment_directory, validate_article_segment, validate_relative,
  validate_target,
}

pub record CommentAttachment : Type 0 where
  pub directory_rel : Str
  pub fifo_rel : Str
  pub target : Str

-- the target of a directory
unfoldable pub target_of : Str → Str
target_of directory = if is_empty directory then lit "/" else lit "/" ++ directory ++ lit "/"

abbrev check_directory : Str → Checked
check_directory directory =
    if is_empty directory
    then ok tt
    else validate_relative directory false validate_article_segment comment_directory

unfoldable pub from_directory_rel : Str → Result PathModelError CommentAttachment
from_directory_rel directory = do
  check_directory directory
  validate_target (target_of directory)
  ok (record {
    directory_rel = directory;
    fifo_rel = if is_empty directory then lit "comment" else directory ++ lit "/comment";
    target = target_of directory;
  })
