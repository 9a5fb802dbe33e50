-- ===== src/Web/Stats.antt =====
-- crates/servers/web/src/stats.rs: the requests for pages of articles, recorded for statd. The map of
-- the routes is the list of its entries; `find_scope` is the map `by_directory`, the same as in jaild.
pub mod Routes
pub mod Batches
mod Examples
use termblog.Prelude.{
  ℕ, ◌+◌, Bool, true, false, not, ◌&&◌, ◌||◌, ltb, ◌==◌, if◌then◌else◌, List, [], ◌∷◌, ◌++◌, Option,
  none, some, Result, ok, err, ◌>>=◌, ◌>>◌, guard_not, length,
}
use termblog.Prelude.Text.{Str, eq}
use termblog.ContentModel.Validate.{PathModelError}
use termblog.ContentModel.Article.{ArticlePath, parse}
use termblog.ContentModel.Scope.{ContentScope}
use termblog.ContentModel.Manifest.{parse_scope_manifest}
use termblog.ContentModel.Index.{ArticleIndexEntry, ArticleIndex, validate}
use termblog.Jaild.Quota.{IpAddr, v4, v6}
use termblog.Jaild.Stats.{find_scope}
use termblog.Statd.Protocol.{max_batch_events, static_request, RecordEvent}
use termblog.Statd.Validate.{Env}

abbrev pub queue_capacity : ℕ
queue_capacity = 2048

pub record RouteBinding : Type 0 where
  pub target : Str
  pub article : Str

abbrev pub Routes : Type 0
Routes = List (Str × RouteBinding)

unfoldable pub find_route : Str → Routes → Option RouteBinding
find_route path [] = none
find_route path ((route, b) ∷ routes) =
    let rest = find_route path routes in if eq route path then some b else rest

unfoldable pub qualifying_binding : Routes → Bool → Str → ℕ → Option RouteBinding
qualifying_binding routes is_get path status =
    if not is_get || not (status == 200 || status == 304) then none else find_route path routes

pub data RoutesError : Type 0 where
  model_error : PathModelError → RoutesError
  duplicate_route : RoutesError

abbrev pub from_model : {A : Type 0} → Result PathModelError A → Result RoutesError A
from_model (ok a) = ok a
from_model (err e) = err (model_error e)

abbrev pub has_route : Str → Routes → Bool
has_route route [] = false
has_route route ((r, b) ∷ routes) =
    let rest = has_route route routes in if eq r route then true else rest

-- `insert` of a route that must not be there
abbrev pub insert_route : Str → RouteBinding → Routes → Result RoutesError Routes
insert_route route b routes =
    if has_route route routes then err duplicate_route else ok ((route, b) ∷ routes)

-- the routes behind one entry of the index
unfoldable pub bind_entry :
    List ContentScope → ArticleIndexEntry → Routes → Result RoutesError Routes
bind_entry scopes entry routes = do
  article ← from_model (parse entry.source_rel)
  elim (find_scope article.directory_rel scopes) [
    | none ↦ ok routes
    | some scope ↦
        insert_route entry.route (record { target = scope.target; article = article.key }) routes
  ]

unfoldable pub bind_entries :
    List ContentScope → List ArticleIndexEntry → Routes → Result RoutesError Routes
bind_entries scopes [] routes = ok routes
bind_entries scopes (entry ∷ entries) routes = do
  next ← bind_entry scopes entry routes
  bind_entries scopes entries next

-- `load_routes`, of the index and of the text of the manifest
unfoldable pub load_routes : ArticleIndex → Str → Result RoutesError Routes
load_routes index manifest = do
  from_model (validate index)
  scopes ← from_model (parse_scope_manifest manifest)
  bind_entries scopes index.articles []

-- `IpAddr::to_string`
abbrev pub to_string : Env → IpAddr → Str
to_string env (v4 a) = env.show_v4 a
to_string env (v6 a) = env.show_v6 a

-- the routes, the queue, the events that the worker holds, and the batches it has sent, the last one
-- in front
pub record Recorder : Type 0 where
  pub routes : Routes
  pub queue : List RecordEvent
  pub events : List RecordEvent
  pub sent : List (List RecordEvent)

abbrev pub event_of : Env → RouteBinding → IpAddr → RecordEvent
event_of env b ip = record {
  source = static_request;
  target = b.target;
  article = b.article;
  ip = to_string env ip;
}

-- `try_send`: an event that finds the queue full is dropped
abbrev pub try_send : RecordEvent → Recorder → Recorder
try_send e r =
    if ltb (length r.queue) queue_capacity then record r { queue = r.queue ++ (e ∷ []) } else r

unfoldable pub record_request : Env → Bool → Str → ℕ → IpAddr → Recorder → Recorder
record_request env is_get path status ip r = elim (qualifying_binding r.routes is_get path status) [
  | none ↦ r
  | some b ↦ try_send (event_of env b ip) r
]

-- One `recv` or `try_recv` of `batch_worker`: an empty queue is waited for if the worker holds no
-- event, and otherwise, as a full batch does, ends the batch.
unfoldable pub poll : Recorder → Recorder
poll r = elim r.events [
  | [] ↦ elim r.queue [ [] ↦ r | e ∷ q ↦ record r { queue = q; events = e ∷ [] } ]
  | f ∷ fs ↦
      if ltb (length (f ∷ fs)) max_batch_events
      then elim r.queue [
        | [] ↦ record r { events = []; sent = (f ∷ fs) ∷ r.sent }
        | e ∷ q ↦ record r { queue = q; events = (f ∷ fs) ++ (e ∷ []) }
      ]
      else record r { events = []; sent = (f ∷ fs) ∷ r.sent }
]

-- A request, a step of the worker, or a tick of `route_reloader` with the files it reads.
pub data Tick : Type 0 where
  requested : Bool → Str → ℕ → IpAddr → Tick
  polled : Tick
  reloaded : ArticleIndex → Str → Tick

abbrev pub keep_or : Recorder → Result RoutesError Routes → Recorder
keep_or r (ok routes) = record r { routes = routes }
keep_or r (err e) = r

unfoldable pub tick : Env → Tick → Recorder → Recorder
tick env (requested is_get path status ip) r = record_request env is_get path status ip r
tick env polled r = poll r
tick env (reloaded index manifest) r = keep_or r (load_routes index manifest)

-- the requests and the tasks that `start` spawns, interleaved
unfoldable pub ticks : Env → List Tick → Recorder → Recorder
ticks env [] r = r
ticks env (t ∷ ts) r = ticks env ts (tick env t r)

-- `Recorder::start`, with the result of `load_routes`
abbrev pub start : Result RoutesError Routes → Recorder
start loaded = keep_or (record { routes = []; queue = []; events = []; sent = [] }) loaded
