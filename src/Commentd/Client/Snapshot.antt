-- ===== src/Commentd/Client/Snapshot.antt =====
-- What `Client::all` of crates/servers/commentd/src/client.rs collects from a store that may change
-- between the requests.
use mathlib.Core.List.{append_assoc}
use termblog.Prelude.{
  ℕ, zero, suc, ◌+◌, ◌<◌, ◌≡◌, refl, ap, sym, ◌∙◌, inl, inr, Bool, true, false, List, [], ◌∷◌, ◌++◌,
  Option, none, some, ok, take, drop, length, is_empty, arith, Bool-cases, take-append-drop,
  length-drop,
}
use termblog.Prelude.Text.{Str, eq}
use termblog.Prelude.Text.Splitting.{eq→≡, eq_refl}
use termblog.Commentd.Protocol.{Comment, max_limit}
use termblog.Commentd.Store.{Store}
use termblog.Commentd.Relations.{Ascending}
use termblog.Commentd.Query.{Page, PageRequest, page, page_result, id_page}
use termblog.Commentd.Client.{
  ClientError, Service, RoundEnd, complete, failed, stale, revision_or, round, all_rounds,
  all_comments,
}
use termblog.Commentd.Client.Pages.{
  behind, wanted_comments, behind-all, behind-twice, PageOf, final, more, id_page-PageOf,
  wanted-Increasing, behind-Increasing, page_result-stale, page_result-fresh, page_result-first,
}

-- The service over a store that is the given one at the time of each request.
abbrev pub serving : Bool → (ℕ → Store) → Service
serving awaiting history n req = some (page (history n) req awaiting)

-- what a round ends with
data EndOf (r : RoundEnd) : Type 0 where
  ended : (cs : List Comment) → r ≡ complete cs → EndOf r
  refused : (e : ClientError) → r ≡ failed e → EndOf r
  again : (n : ℕ) → r ≡ stale n → EndOf r

RoundEnd-cases : (r : RoundEnd) → EndOf r
RoundEnd-cases (complete cs) = ended cs refl
RoundEnd-cases (failed e) = refused e refl
RoundEnd-cases (stale n) = again n refl

module _ (awaiting : Bool) (history : ℕ → Store) where
  abbrev asked : ℕ → Option Str → PageRequest
  asked after revision = record { after_id = after; limit = some max_limit; revision = revision }

  round-stale :
      (fuel n after : ℕ) (r : Str) (out : List Comment)
      → eq r (history n).revision ≡ false
      → round (serving awaiting history) (suc fuel) n after (some r) out ≡ stale (n + 1)
  unfolding round
  round-stale fuel n after r out e =
      ground (arith, page_result-stale awaiting (history n) after r e)

  round-final :
      (fuel n after : ℕ) (revision : Option Str) (out cs : List Comment) (p : Page)
      → page_result (history n) (asked after revision) awaiting ≡ ok p
      → p ≡ record { comments = cs; next_after_id = none; has_more = false }
      → round (serving awaiting history) (suc fuel) n after revision out ≡ complete (out ++ cs)
  unfolding round
  round-final fuel n after revision out cs p answer e = ground (arith, answer, e)

  round-more :
      (fuel n after id : ℕ) (revision : Option Str) (out cs : List Comment) (p : Page)
      → page_result (history n) (asked after revision) awaiting ≡ ok p
      → p ≡ record { comments = cs; next_after_id = some id; has_more = true }
      → round (serving awaiting history) (suc fuel) n after revision out
        ≡ round
            (serving awaiting history)
            fuel
            (n + 1)
            id
            (revision_or revision (history n).revision)
            (out ++ cs)
  unfolding round
  round-more fuel n after id revision out cs p answer e = ground (arith, answer, e)

  -- what stands behind the last comment of a page
  rest_of_page :
      (after id : ℕ) (cs : List Comment)
      → after < id
      → behind id (behind after cs) ≡ drop max_limit (behind after cs)
      → behind after cs ≡ take max_limit (behind after cs) ++ behind id cs
  rest_of_page after id cs h e =
      sym (take-append-drop max_limit (behind after cs))
      ∙ ap (◌++◌ (take max_limit (behind after cs)))
          (sym e ∙ behind-twice after id cs (omega (arith, h)))

module _ (awaiting : Bool) (history : ℕ → Store)
    (ascending : (n : ℕ) → Ascending 0 (history n).comments)
    (same : (m n : ℕ)
      → (history m).revision ≡ (history n).revision
      → (history m).comments ≡ (history n).comments) where
  -- the wanted comments at a revision
  at_revision :
      (m n : ℕ)
      → eq (history m).revision (history n).revision ≡ true
      → wanted_comments awaiting (history n) ≡ wanted_comments awaiting (history m)
  unfolding wanted_comments
  at_revision m n e = cc (same m n (eq→≡ (history m).revision (history n).revision e))

  page_at :
      (n after : ℕ)
      → PageOf max_limit after
          (behind after (wanted_comments awaiting (history n)))
          (id_page max_limit (behind after (wanted_comments awaiting (history n))))
  page_at n after =
      id_page-PageOf 99 after _
        (behind-Increasing after 0 _ (wanted-Increasing awaiting (history n) (ascending n)))

  append_rest :
      (after id : ℕ) (out cs : List Comment)
      → after < id
      → behind id (behind after cs) ≡ drop max_limit (behind after cs)
      → (out ++ take max_limit (behind after cs)) ++ behind id cs ≡ out ++ behind after cs
  append_rest after id out cs h e =
      append_assoc out (take max_limit (behind after cs)) (behind id cs)
      ∙ ap (◌++◌ out) (sym (rest_of_page awaiting history after id cs h e))

  -- A round that goes on at a revision ends with the comments of that revision, or does not complete.
  round_sound :
      (fuel n after m : ℕ) (out res : List Comment)
      → round (serving awaiting history) fuel n after (some (history m).revision) out ≡ complete res
      → res ≡ out ++ behind after (wanted_comments awaiting (history m))
  round_sound zero n after m out res h = absurd (unfold round in cc h)
  round_sound (suc fuel) n after m out res h =
      elim (Bool-cases (eq (history m).revision (history n).revision)) [
        | inr e ↦
            let r = round-stale awaiting history fuel n after (history m).revision out e in
            absurd (cc (h, r))
        | inl e ↦
            let answer = page_result-fresh awaiting (history n) after (history m).revision e in
            let w = at_revision m n e in
            elim (page_at n after) [
              | final p ↦
                  let r = round-final awaiting history fuel n after _ out _ _ answer p in
                  cc (h, r, w)
              | more id above rest left p ↦
                  let r = round-more awaiting history fuel n after id _ out _ _ answer p in
                  let ih =
                    round_sound fuel (n + 1) id m
                      (out ++ take max_limit (behind after (wanted_comments awaiting (history n))))
                      res (sym r ∙ h) in
                  let a =
                    append_rest after id out (wanted_comments awaiting (history n)) above rest in
                  cc (ih, a, w)
            ]
      ]

  first_round_sound :
      (fuel n : ℕ) (res : List Comment)
      → round (serving awaiting history) fuel n 0 none [] ≡ complete res
      → res ≡ wanted_comments awaiting (history n)
  first_round_sound zero n res h = absurd (unfold round in cc h)
  first_round_sound (suc fuel) n res h =
      let answer = page_result-first awaiting (history n) in
      let all =
        behind-all 0 0 _ (omega arith) (wanted-Increasing awaiting (history n) (ascending n)) in
      elim (page_at n 0) [
        | final p ↦
            let r = round-final awaiting history fuel n 0 none [] _ _ answer p in cc (h, r, all)
        | more id above rest left p ↦
            let r = round-more awaiting history fuel n 0 id none [] _ _ answer p in
            let ih =
              round_sound fuel (n + 1) id n
                (take max_limit (behind 0 (wanted_comments awaiting (history n)))) res
                (sym r ∙ h) in
            let a = append_rest 0 id [] (wanted_comments awaiting (history n)) above rest in
            cc (ih, a, all)
      ]

  all_rounds_sound :
      (fuel rounds n : ℕ) (res : List Comment)
      → all_rounds (serving awaiting history) fuel rounds n ≡ ok res
      → (m : ℕ) × (res ≡ wanted_comments awaiting (history m))
  unfolding all_rounds
  all_rounds_sound fuel zero n res h = absurd (cc h)
  all_rounds_sound fuel (suc rounds) n res h =
      elim (RoundEnd-cases (round (serving awaiting history) fuel n 0 none [])) [
        | ended cs e ↦ (n, first_round_sound fuel n res (ground (arith, h, e)))
        | refused x e ↦ absurd (ground (arith, h, e))
        | again m e ↦ all_rounds_sound fuel rounds m res (ground (arith, h, e))
      ]

  -- If the comments of a store are in the order of their IDs at every time, and a revision stands for
  -- the same comments at any two times, then whatever changes between the requests, the comments that
  -- `all` returns are those of the wanted status at one time: pages of two revisions are never mixed.
  pub all_comments_sound :
      (fuel : ℕ) (res : List Comment)
      → all_comments (serving awaiting history) fuel ≡ ok res
      → (m : ℕ) × (res ≡ wanted_comments awaiting (history m))
  unfolding all_comments
  all_comments_sound fuel res h = all_rounds_sound fuel 5 0 res h

module _ (awaiting : Bool) (s : Store) (ascending : Ascending 0 s.comments) where
  abbrev unchanging : ℕ → Store
  unchanging n = s

  behind_page :
      (limit : ℕ) (cs : List Comment)
      → is_empty (drop (suc limit) cs) ≡ false
      → length (drop (suc limit) cs) < length cs
  behind_page limit [] e = cc
  behind_page limit (c ∷ cs) e = omega (arith, length-drop limit cs)

  round_completes :
      (fuel n after : ℕ) (out : List Comment)
      → length (behind after (wanted_comments awaiting s)) < fuel
      → (res : List Comment) × (round
            (serving awaiting unchanging)
            fuel
            n
            after
            (some s.revision)
            out
          ≡ complete res)
  round_completes zero n after out h = absurd (omega (arith, h))
  round_completes (suc fuel) n after out h =
      let answer = page_result-fresh awaiting s after s.revision (eq_refl s.revision) in
      elim (page_at awaiting unchanging (λ k. ascending) (λ k l e. refl) n after) [
        | final p ↦ (_, round-final awaiting unchanging fuel n after _ out _ _ answer p)
        | more id above rest left p ↦
            let step = round-more awaiting unchanging fuel n after id _ out _ _ answer p in
            let fewer = behind_page 99 (behind after (wanted_comments awaiting s)) left in
            let twice = behind-twice after id (wanted_comments awaiting s) (omega (arith, above)) in
            let (res, r) =
              round_completes fuel (n + 1) id
                (out ++ take max_limit (behind after (wanted_comments awaiting s)))
                (omega (arith, h, fewer, ap length (sym twice ∙ rest))) in
            (res, step ∙ r)
      ]

  first_round_completes :
      (fuel n : ℕ)
      → length (wanted_comments awaiting s) < fuel
      → (res : List Comment) × (round (serving awaiting unchanging) fuel n 0 none [] ≡ complete res)
  first_round_completes zero n h = absurd (omega (arith, h))
  first_round_completes (suc fuel) n h =
      let answer = page_result-first awaiting s in
      let all = behind-all 0 0 _ (omega arith) (wanted-Increasing awaiting s ascending) in
      elim (page_at awaiting unchanging (λ k. ascending) (λ k l e. refl) n 0) [
        | final p ↦ (_, round-final awaiting unchanging fuel n 0 none [] _ _ answer p)
        | more id above rest left p ↦
            let step = round-more awaiting unchanging fuel n 0 id none [] _ _ answer p in
            let fewer = behind_page 99 (behind 0 (wanted_comments awaiting s)) left in
            let twice = behind-twice 0 id (wanted_comments awaiting s) (omega arith) in
            let (res, r) =
              round_completes fuel (n + 1) id
                (take max_limit (behind 0 (wanted_comments awaiting s)))
                (omega (arith, h, fewer, ap length all, ap length (sym twice ∙ rest))) in
            (res, step ∙ r)
      ]

  -- With the comments of a store in the order of their IDs and more fuel than they are, `all` returns
  -- every comment of the wanted status if the store does not change meanwhile.
  pub all_comments_complete :
      (fuel : ℕ)
      → length (wanted_comments awaiting s) < fuel
      → all_comments (serving awaiting unchanging) fuel ≡ ok (wanted_comments awaiting s)
  unfolding all_comments all_rounds
  all_comments_complete fuel h =
      let (res, r) = first_round_completes fuel 0 h in
      let e = first_round_sound awaiting unchanging (λ k. ascending) (λ k l q. refl) fuel 0 res r in
      ground (arith, r, e)
