-- ===== src/Web/Stats/Examples.antt =====
-- The theorem on the batches at one article. An address is written as its kind and its number.
use termblog.Prelude.{
  ◌≤◌, ◌≡◌, refl, ◌==◌, if◌then◌else◌, List, [], ◌∷◌, Option, none, some, true, All, length,
}
use termblog.Prelude.Text.{Str, lit}
use termblog.ContentModel.Index.{ArticleIndex}
use termblog.Jaild.Quota.{IpAddr, v4, v6}
use termblog.Statd.Validate.{Env}
use termblog.Web.Stats.{
  queue_capacity, load_routes, to_string, Tick, requested, polled, reloaded, ticks, start,
}
use termblog.Web.Stats.Batches.{IsBatch, ticks-batches}

abbrev read_ip : Str → Option IpAddr
read_ip [] = none
read_ip (k ∷ []) = none
read_ip (k ∷ n ∷ []) = if k == 4 then some (v4 n) else some (v6 n)
read_ip (k ∷ n ∷ m ∷ s) = none

abbrev packages : Env
packages = record {
  parse_ip = read_ip;
  show_v4 = λ n. 4 ∷ n ∷ [];
  show_v6 = λ n. 6 ∷ n ∷ [];
  mac = λ key message. message;
}

packages_read : (ip : IpAddr) → packages.parse_ip (to_string packages ip) ≡ some ip
packages_read (v4 n) = refl
packages_read (v6 n) = refl

abbrev index : ArticleIndex
index = record {
  version = 1;
  articles =
      record {
        date10 = lit "2026-01-02";
        source_rel = lit "notes/unix.md";
        key = lit "notes/unix";
        route = lit "/notes/unix/";
        title = lit "Unix";
      }
      ∷ [];
}

abbrev manifest : Str
manifest = lit "notes/comment\t/notes/\n"

-- two requests for the page, the worker's steps up to a batch, and a tick of the reloader
abbrev life : List Tick
life =
    requested true (lit "/notes/unix/") 200 (v4 7)
    ∷ polled
    ∷ requested true (lit "/notes/unix/") 304 (v6 8)
    ∷ polled
    ∷ polled
    ∷ reloaded index manifest
    ∷ []

ticks-batches_example :
    All (IsBatch packages) (ticks packages life (start (load_routes index manifest))).sent
    × (length (ticks packages life (start (load_routes index manifest))).queue ≤ queue_capacity)
ticks-batches_example =
    ticks-batches packages packages_read index manifest life (refl, tt)
      (tt, (tt, (tt, (tt, (tt, ((refl, tt), tt))))))
