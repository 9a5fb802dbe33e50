-- ===== src/ContentModel/Scope.antt =====
-- `ContentScope`: a configured directory shared by comments and statistics.
pub mod Laws
pub mod Articles
use termblog.Prelude.{
  Bool, List, [], ◌++◌, Option, none, some, Result, ok, ◌>>=◌, ◌>>◌, is_empty, if◌then◌else◌, ok_or,
}
use termblog.Prelude.Text.{Str, lit, eq}
use termblog.ContentModel.Validate.{PathModelError, target_slashes, strip_slashes, validate_target}
use termblog.ContentModel.Article.{ArticlePath}
use termblog.ContentModel.Attachment
use termblog.ContentModel.Attachment.{CommentAttachment}

pub record ContentScope : Type 0 where
  pub directory_rel : Str
  pub target : Str
  pub comment_rel : Str
  pub proc_rel : Str
  pub stat_rel : Str

unfoldable pub proc_of : Str → Str
proc_of directory = if is_empty directory then lit "proc" else lit "proc/" ++ directory

unfoldable pub from_directory_rel : Str → Result PathModelError ContentScope
from_directory_rel directory = do
  comment ← Attachment.from_directory_rel directory
  ok (record {
    directory_rel = comment.directory_rel;
    target = comment.target;
    comment_rel = comment.fifo_rel;
    proc_rel = proc_of directory;
    stat_rel = proc_of directory ++ lit "/stat";
  })

abbrev pub comment_attachment : ContentScope → CommentAttachment
comment_attachment scope = record {
  directory_rel = scope.directory_rel;
  fifo_rel = scope.comment_rel;
  target = scope.target;
}

-- After `validate_target` the slashes are there: the `expect` of the source does not fire
-- (`from_target-strip` in the laws), so its failure is given the error of the validator.
unfoldable pub from_target : Str → Result PathModelError ContentScope
from_target target = do
  validate_target target
  directory ← if eq target (lit "/") then ok [] else ok_or (strip_slashes target) target_slashes
  from_directory_rel directory

unfoldable pub contains_article : ContentScope → ArticlePath → Bool
contains_article scope article = eq article.directory_rel scope.directory_rel
