-- ===== src/Commentd/Server/Lifetime.antt =====
-- The store over the life of the comment daemon (crates/servers/commentd/src/server.rs).
use termblog.Prelude.{
  ℕ, ◌≡◌, refl, ap, sym, ◌∙◌, subst, ◌⊎◌, inl, inr, Bool, true, ◌||◌, ◌==◌, List, [], ◌∷◌, Result,
  ok, err, arith, Bool-cases, Option-cases, All,
}
use termblog.Proto.{Frame}
use termblog.Commentd.Stored.{Env, StoreError}
use termblog.Commentd.Store.{Store, CommitIo}
use termblog.Commentd.Submit.{SubmitRequest, SubmitResponse, submit}
use termblog.Commentd.Submit.Branches.{submit-poisoned, moderate-poisoned}
use termblog.Commentd.Moderate.{ModerateResponse, moderate}
use termblog.Commentd.Reopen.{EnvLaws}
use termblog.Commentd.Invariant.{WellFormed}
use termblog.Commentd.Invariant.Kept.{submit-WellFormed, moderate-WellFormed}
use termblog.Commentd.Server.{
  Side, public_side, private_side, Parser, kind_submit, kind_sync, kind_queue, kind_approve,
  kind_reject, after_submit, after_moderate, answer_public, answer_private, answer, Daemon, Action,
  request, check, act, serve,
}

after_submit-store : (r : Result StoreError SubmitResponse × Store) → (after_submit r).1 ≡ r.1
after_submit-store (ok r, s) = refl
after_submit-store (err e, s) = refl

after_moderate-store : (r : Result StoreError ModerateResponse × Store) → (after_moderate r).1 ≡ r.1
after_moderate-store (ok r, s) = refl
after_moderate-store (err e, s) = refl

module _ (env : Env) (parser : Parser) where
  -- The store after a request is the store before it, or that of `submit` or `moderate`.
  pub data Served (side : Side) (now : env.Instant) (io : CommitIo) (s t : Store) : Type 0 where
    kept : t ≡ s → Served side now io s t
    by_submit :
        (req : SubmitRequest)
        → side ≡ private_side
        → t ≡ (submit env now io s req).1
        → Served side now io s t
    by_moderate :
        (ids : List ℕ) (approve : Bool)
        → side ≡ private_side
        → t ≡ (moderate env io s ids approve).1
        → Served side now io s t

  answer_public-store : (frame : Frame) (s : Store) → (answer_public env parser frame s).1 ≡ s
  unfolding answer_public
  answer_public-store frame s = ground arith

  answer_private-Served :
      (now : env.Instant) (io : CommitIo) (frame : Frame) (s : Store)
      → Served private_side now io s (answer_private env parser now io frame s).1
  unfolding answer_private
  answer_private-Served now io frame s = elim (Bool-cases (frame.kind == kind_submit)) [
    | inl k ↦ elim (Option-cases (parser.parse_submit frame.payload)) [
      | inl e ↦ kept (cc (k, e))
      | inr (req, e) ↦ by_submit req refl (cc (k, e, after_submit-store (submit env now io s req)))
    ]
    | inr k ↦ elim (Bool-cases (frame.kind == kind_sync || frame.kind == kind_queue)) [
      | inl l ↦ kept (ground (arith, k, l))
      | inr l ↦ elim (Bool-cases (frame.kind == kind_approve || frame.kind == kind_reject)) [
        | inr m ↦ kept (ground (arith, k, l, m))
        | inl m ↦ elim (Option-cases (parser.parse_ids frame.payload)) [
          | inl e ↦ kept (ground (arith, k, l, m, e))
          | inr (ids, e) ↦ by_moderate ids (frame.kind == kind_approve) refl (
              cc (
                k,
                l,
                m,
                e,
                after_moderate-store (moderate env io s ids (frame.kind == kind_approve)),
              ))
        ]
      ]
    ]
  ]

  answer-Served :
      (side : Side) (now : env.Instant) (io : CommitIo) (frame : Frame) (s : Store)
      → Served side now io s (answer env parser side now io frame s).1
  unfolding answer
  answer-Served public_side now io frame s = kept (answer_public-store frame s)
  answer-Served private_side now io frame s = answer_private-Served now io frame s

  -- A store that answers a public request, or is poisoned, stays as it is.
  Served-kept :
      (side : Side) (now : env.Instant) (io : CommitIo) (s t : Store)
      → (side ≡ public_side) ⊎ (s.poisoned ≡ true)
      → Served side now io s t
      → t ≡ s
  Served-kept side now io s t h (kept e) = e
  Served-kept side now io s t (inl p) (by_submit req q e) = absurd (cc (p, q))
  Served-kept side now io s t (inl p) (by_moderate ids b q e) = absurd (cc (p, q))
  Served-kept side now io s t (inr p) (by_submit req q e) =
      e ∙ ap (λ r. r.1) (submit-poisoned env io s now req p)
  Served-kept side now io s t (inr p) (by_moderate ids b q e) =
      e ∙ ap (λ r. r.1) (moderate-poisoned env io s ids b p)

  -- an action that is no request on the private socket
  abbrev pub IsPublic : Action env → Type 0
  IsPublic (request side now io frame) = side ≡ public_side
  IsPublic check = Unit

  act-store :
      (a : Action env) (d : Daemon)
      → IsPublic a ⊎ (d.store.poisoned ≡ true)
      → (act env parser a d).store ≡ d.store
  unfolding act
  act-store (request side now io frame) d h = ground (
    arith,
    Served-kept side now io d.store (answer env parser side now io frame d.store).1 h
        (answer-Served side now io frame d.store),
  )
  act-store check d h = ground arith

  -- If only the public socket is used, or the store is poisoned, then whatever is requested and however
  -- the tasks interleave, the store stays as it is.
  pub serve-kept :
      (actions : List (Action env)) (d : Daemon)
      → All IsPublic actions ⊎ (d.store.poisoned ≡ true)
      → (serve env parser actions d).store ≡ d.store
  unfolding serve
  serve-kept [] d h = refl
  serve-kept (a ∷ actions) d (inl p) =
      serve-kept actions (act env parser a d) (inl p.1) ∙ act-store a d (inl p.0)
  serve-kept (a ∷ actions) d (inr p) =
      let e = act-store a d (inr p) in
      serve-kept actions (act env parser a d) (inr (ap (λ s. s.poisoned) e ∙ p)) ∙ e

module _ (env : Env) (laws : EnvLaws env) (parser : Parser) where
  Served-WellFormed :
      (side : Side) (now : env.Instant) (io : CommitIo) (s t : Store)
      → WellFormed env s
      → Served env parser side now io s t
      → WellFormed env t
  Served-WellFormed side now io s t w (kept e) = subst (WellFormed env) (sym e) w
  Served-WellFormed side now io s t w (by_submit req q e) =
      subst (WellFormed env) (sym e) (submit-WellFormed env laws now io s req w)
  Served-WellFormed side now io s t w (by_moderate ids b q e) =
      subst (WellFormed env) (sym e) (moderate-WellFormed env laws io s ids b w)

  act-WellFormed :
      (a : Action env) (d : Daemon)
      → WellFormed env d.store
      → WellFormed env (act env parser a d).store
  unfolding act
  act-WellFormed (request side now io frame) d w = elim (Bool-cases d.exited) [
    | inl x ↦ subst (WellFormed env) (ground (arith, x)) w
    | inr x ↦ subst (WellFormed env) (ground (arith, x)) (
        Served-WellFormed side now io d.store (answer env parser side now io frame d.store).1 w
          (answer-Served env parser side now io frame d.store))
  ]
  act-WellFormed check d w = subst (WellFormed env) (sym (act-store env parser check d (inl tt))) w

  -- Given the laws of the packages: whatever requests come on both sockets, whatever the file system
  -- answers, and however the tasks interleave, the store stays well formed.
  pub serve-WellFormed :
      (actions : List (Action env)) (d : Daemon)
      → WellFormed env d.store
      → WellFormed env (serve env parser actions d).store
  unfolding serve
  serve-WellFormed [] d w = w
  serve-WellFormed (a ∷ actions) d w =
      serve-WellFormed actions (act env parser a d) (act-WellFormed a d w)
