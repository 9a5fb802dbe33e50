-- ===== src/Web/Stats/Batches.antt =====
-- The batches that the web gateway (crates/servers/web/src/stats.rs) sends, under the checks of statd
-- (crates/servers/statd/src/store.rs).
use termblog.Prelude.{
  ℕ, ◌≤◌, ◌≡◌, ◌≢◌, refl, ap, sym, ◌∙◌, subst, inl, inr, Bool, false, ltb, if◌then◌else◌, List, [],
  ◌∷◌, ◌++◌, some, ok, All, All-append, length, length-append, is_empty, arith, Bool-cases,
  Option-cases, Result-cases, ltb→lt,
}
use termblog.Prelude.Text.{Str, lit, eq, split, strip_suffix}
use termblog.Prelude.Text.Splitting.{eq_refl}
use termblog.ContentModel.Validate.{
  each, is_slug_char, validate_relative, validate_segment, validate_article_source_segment,
  validate_article_segment,
}
use termblog.ContentModel.Article.{ArticlePath, parse}
use termblog.ContentModel.Index.{ArticleIndex}
use termblog.Jaild.Quota.{IpAddr}
use termblog.Statd.Protocol.{static_request, max_batch_events, RecordEvent}
use termblog.Statd.Validate.{
  Env, ValidEvent, validate_event, validate_events, canonical_ip, show_ip,
}
use termblog.Web.Stats.{
  queue_capacity, RouteBinding, Routes, find_route, qualifying_binding, load_routes, to_string,
  Recorder, event_of, try_send, record_request, poll, Tick, requested, polled, reloaded, keep_or,
  tick, ticks, start,
}
use termblog.Web.Stats.Routes.{IsBinding, IsShort, BindsAll, load_routes-BindsAll}

found : (c b : RouteBinding) → some c ≡ some b → c ≡ b
found c b h = cc h

parse-md : (a : ArticlePath) → parse (lit ".md") ≢ ok a
unfolding parse validate_relative each split validate_segment eq validate_article_source_segment
    strip_suffix validate_article_segment is_slug_char
parse-md a h = cc h

module _ (env : Env) where
  -- an event that statd accepts
  abbrev pub IsAccepted : RecordEvent → Type 0
  IsAccepted e = (v : ValidEvent) × (validate_event env e ≡ ok v)

  -- what a batch must be for statd
  abbrev pub IsBatch : List RecordEvent → Type 0
  IsBatch b =
      (is_empty b ≡ false)
      × (length b ≤ max_batch_events)
      × ((vs : List ValidEvent) × (validate_events env b ≡ ok vs))

module _ (env : Env) (reads : (ip : IpAddr) → env.parse_ip (to_string env ip) ≡ some ip) where
  canonical_ip-ok : (ip : IpAddr) → (s : Str) × (canonical_ip env (to_string env ip) ≡ ok s)
  unfolding canonical_ip
  canonical_ip-ok ip = (show_ip env ip, ground (arith, reads ip))

  key-not_empty :
      (key : Str) (a : ArticlePath) → parse (key ++ lit ".md") ≡ ok a → is_empty key ≡ false
  key-not_empty [] a h = absurd (parse-md a h)
  key-not_empty (c ∷ key) a h = refl

  event_of-IsAccepted :
      (b : RouteBinding) (ip : IpAddr) → IsBinding b → IsAccepted env (event_of env b ip)
  unfolding validate_event
  event_of-IsAccepted b ip v =
      let (a, p, key, scope) = v.article in
      let (s, target, inside) = scope in
      let (text, c) = canonical_ip-ok ip in
      (
        record { source = static_request; target = b.target; article = b.article; ip = text },
        ground (
          arith,
          v.short,
          key-not_empty b.article a p,
          p,
          ap (λ k. eq k b.article) key ∙ eq_refl b.article,
          target,
          inside,
          c,
        ),
      )

  validate_events-ok :
      (es : List RecordEvent)
      → All (IsAccepted env) es
      → (vs : List ValidEvent) × (validate_events env es ≡ ok vs)
  unfolding validate_events
  validate_events-ok [] h = ([], refl)
  validate_events-ok (e ∷ es) h =
      let (vs, k) = validate_events-ok es h.1 in (h.0.0 ∷ vs, ground (arith, h.0.1, k))

  record IsSound (r : Recorder) : Type 0 where
    routes : BindsAll r.routes
    queue : All (IsAccepted env) r.queue
    events : All (IsAccepted env) r.events
    room : length r.queue ≤ queue_capacity
    few : length r.events ≤ max_batch_events
    sent : All (IsBatch env) r.sent

  find_route-IsBinding :
      (path : Str) (routes : Routes) (b : RouteBinding)
      → BindsAll routes
      → find_route path routes ≡ some b
      → IsBinding b
  unfolding find_route
  find_route-IsBinding path [] b all h = absurd (cc h)
  find_route-IsBinding path ((route, c) ∷ routes) b all h = elim (Bool-cases (eq route path)) [
    | inl e ↦ subst IsBinding (found c b (rw e at h)) all.0
    | inr e ↦ find_route-IsBinding path routes b all.1 (ground (arith, h, e))
  ]

  try_send-IsSound :
      (e : RecordEvent) (r : Recorder) → IsAccepted env e → IsSound r → IsSound (try_send e r)
  try_send-IsSound e r a v = elim (Bool-cases (ltb (length r.queue) queue_capacity)) [
    | inr full ↦
        subst IsSound
          (sym (ap (λ b. if b then record r { queue = r.queue ++ (e ∷ []) } else r) full)) v
    | inl free ↦
        subst IsSound
          (sym (ap (λ b. if b then record r { queue = r.queue ++ (e ∷ []) } else r) free))
          (record {
            routes = v.routes;
            queue = All-append (IsAccepted env) r.queue (e ∷ []) v.queue (a, tt);
            events = v.events;
            room = omega (
              arith,
              length-append r.queue (e ∷ []),
              ltb→lt (length r.queue) queue_capacity free,
            );
            few = v.few;
            sent = v.sent;
          })
  ]

  record_request-IsSound :
      (is_get : Bool) (path : Str) (status : ℕ) (ip : IpAddr) (r : Recorder)
      → IsSound r
      → IsSound (record_request env is_get path status ip r)
  unfolding record_request
  record_request-IsSound is_get path status ip r v =
      elim (Option-cases (qualifying_binding r.routes is_get path status)) [
        | inl n ↦ rw (n, record_request) v
        | inr (b, n) ↦
            rw (n, record_request)
              (try_send-IsSound (event_of env b ip) r
                (event_of-IsAccepted b ip (
                  find_route-IsBinding path r.routes b v.routes
                    (unfold qualifying_binding in ground (arith, n))))
                v)
      ]

  -- a batch that the worker ends
  ended-IsBatch :
      (f : RecordEvent) (fs : List RecordEvent)
      → All (IsAccepted env) (f ∷ fs)
      → length (f ∷ fs) ≤ max_batch_events
      → IsBatch env (f ∷ fs)
  ended-IsBatch f fs h few = (refl, few, validate_events-ok (f ∷ fs) h)

  ended-IsSound :
      (routes : Routes) (queue : List RecordEvent) (f : RecordEvent) (fs : List RecordEvent)
      (sent : List (List RecordEvent))
      → IsSound (record { routes = routes; queue = queue; events = f ∷ fs; sent = sent })
      → IsSound (record { routes = routes; queue = queue; events = []; sent = (f ∷ fs) ∷ sent })
  ended-IsSound routes queue f fs sent v = record {
    routes = v.routes;
    queue = v.queue;
    events = tt;
    room = v.room;
    few = omega arith;
    sent = (ended-IsBatch f fs v.events v.few, v.sent);
  }

  poll_fields :
      (routes : Routes) (queue events : List RecordEvent) (sent : List (List RecordEvent))
      → IsSound (record { routes = routes; queue = queue; events = events; sent = sent })
      → IsSound (poll (record { routes = routes; queue = queue; events = events; sent = sent }))
  unfolding poll
  poll_fields routes [] [] sent v = v
  poll_fields routes (e ∷ q) [] sent v = record {
    routes = v.routes;
    queue = v.queue.1;
    events = (v.queue.0, tt);
    room = omega (arith, v.room);
    few = omega arith;
    sent = v.sent;
  }
  poll_fields routes [] (f ∷ fs) sent v =
      elim (Bool-cases (ltb (length (f ∷ fs)) max_batch_events)) [
        | inl e ↦ rw e (ended-IsSound routes [] f fs sent v)
        | inr e ↦ rw e (ended-IsSound routes [] f fs sent v)
      ]
  poll_fields routes (e ∷ q) (f ∷ fs) sent v =
      elim (Bool-cases (ltb (length (f ∷ fs)) max_batch_events)) [
        | inr full ↦ rw full (ended-IsSound routes (e ∷ q) f fs sent v)
        | inl free ↦ rw free (record {
          routes = v.routes;
          queue = v.queue.1;
          events = All-append (IsAccepted env) (f ∷ fs) (e ∷ []) v.events (v.queue.0, tt);
          room = omega (arith, v.room);
          few =
              omega
                (arith, length-append fs (e ∷ []), ltb→lt (length (f ∷ fs)) max_batch_events free);
          sent = v.sent;
        })
      ]

  poll-IsSound : (r : Recorder) → IsSound r → IsSound (poll r)
  poll-IsSound r v = poll_fields r.routes r.queue r.events r.sent v

  -- the articles of a new index have keys that are short enough
  abbrev pub IsShortTick : Tick → Type 0
  IsShortTick (requested is_get path status ip) = Unit
  IsShortTick polled = Unit
  IsShortTick (reloaded index manifest) = All IsShort index.articles

  keep_or-IsSound :
      (index : ArticleIndex) (manifest : Str) (r : Recorder)
      → All IsShort index.articles
      → IsSound r
      → IsSound (keep_or r (load_routes index manifest))
  keep_or-IsSound index manifest r short v = elim (Result-cases (load_routes index manifest)) [
    | inr (x, k) ↦ subst IsSound (sym (ap (keep_or r) k)) v
    | inl (routes, k) ↦ subst IsSound (sym (ap (keep_or r) k)) (record {
      routes = load_routes-BindsAll index manifest routes short k;
      queue = v.queue;
      events = v.events;
      room = v.room;
      few = v.few;
      sent = v.sent;
    })
  ]

  tick-IsSound : (t : Tick) (r : Recorder) → IsShortTick t → IsSound r → IsSound (tick env t r)
  unfolding tick
  tick-IsSound (requested is_get path status ip) r short v =
      record_request-IsSound is_get path status ip r v
  tick-IsSound polled r short v = poll-IsSound r v
  tick-IsSound (reloaded index manifest) r short v = keep_or-IsSound index manifest r short v

  ticks-IsSound :
      (ts : List Tick) (r : Recorder) → All IsShortTick ts → IsSound r → IsSound (ticks env ts r)
  unfolding ticks
  ticks-IsSound [] r short v = v
  ticks-IsSound (t ∷ ts) r short v =
      ticks-IsSound ts (tick env t r) short.1 (tick-IsSound t r short.0 v)

  -- If an address that is written reads back, and the keys of the articles have at most 512 bytes: in
  -- whatever order requests come, the worker takes them and the files of the routes change, the queue
  -- keeps its bound, and each batch sent has 1 to 256 events, of which statd accepts every one.
  pub ticks-batches :
      (index : ArticleIndex) (manifest : Str) (ts : List Tick)
      → All IsShort index.articles
      → All IsShortTick ts
      → All (IsBatch env) (ticks env ts (start (load_routes index manifest))).sent
        × (length (ticks env ts (start (load_routes index manifest))).queue ≤ queue_capacity)
  ticks-batches index manifest ts short shorts =
      let v = ticks-IsSound ts (start (load_routes index manifest)) shorts (
        keep_or-IsSound index manifest _ short (record {
          routes = tt;
          queue = tt;
          events = tt;
          room = omega arith;
          few = omega arith;
          sent = tt;
        })) in
      (v.sent, v.room)
