-- ===== src/Web/Sessions/Scrollback.antt =====
-- The scrollback of crates/servers/web/src/sessions.rs, and its pieces in a replay.
use termblog.Prelude.{
  ℕ, zero, suc, ◌-◌, ◌*◌, ◌≤◌, ◌≡◌, refl, ap, sym, ◌∙◌, ◌⊎◌, inl, inr, ltb, List, [], ◌∷◌, ◌++◌,
  length, take, drop, concat, length-append, length-drop, take-append-drop, arith, Bool-cases,
}
use mathlib.Core.List
use termblog.Web.Sessions.{scrollback_bytes, replay_chunk, chunks_from, chunks, push_scrollback}

concat-chunks_from :
    (size fuel : ℕ) (xs : List ℕ) → length xs ≤ fuel → concat (chunks_from size fuel xs) ≡ xs
unfolding chunks_from
concat-chunks_from size zero [] h = refl
concat-chunks_from size zero (x ∷ xs) h = absurd (omega (arith, h))
concat-chunks_from size (suc fuel) [] h = refl
concat-chunks_from size (suc fuel) (x ∷ xs) h =
    ap (λ r. x ∷ (take size xs ++ r))
      (concat-chunks_from size fuel (drop size xs) (omega (arith, h, length-drop size xs)))
    ∙ ap (◌∷◌ x) (take-append-drop size xs)

-- The pieces of a replay are the scrollback.
pub concat-chunks : (xs : List ℕ) → concat (chunks xs) ≡ xs
unfolding chunks
concat-chunks xs = concat-chunks_from (replay_chunk - 1) (length xs) xs (omega arith)

length-chunks_from :
    (fuel bound : ℕ) (xs : List ℕ)
    → length xs ≤ 4096 * bound
    → length (chunks_from 4095 fuel xs) ≤ bound
unfolding chunks_from
length-chunks_from zero bound xs h = omega arith
length-chunks_from (suc fuel) bound [] h = omega arith
length-chunks_from (suc fuel) zero (x ∷ xs) h = absurd (omega (arith, h))
length-chunks_from (suc fuel) (suc bound) (x ∷ xs) h =
    omega
      (arith, length-chunks_from fuel bound (drop 4095 xs) (omega (arith, h, length-drop 4095 xs)))

-- A scrollback within its bound is replayed in at most 32 pieces.
pub length-chunks : (xs : List ℕ) → length xs ≤ scrollback_bytes → length (chunks xs) ≤ 32
unfolding chunks
length-chunks xs h = length-chunks_from (length xs) 32 xs h

-- A list is the end of the output: all of it, or its last 128 KiB.
pub record IsRecent (history recent : List ℕ) : Type 0 where
  pub front : List ℕ
  pub whole : history ≡ front ++ recent
  pub bounded : length recent ≤ scrollback_bytes
  pub full : (front ≡ []) ⊎ (length recent ≡ scrollback_bytes)

pub push_scrollback-IsRecent :
    (history scrollback b : List ℕ)
    → IsRecent history scrollback
    → IsRecent (history ++ b) (push_scrollback scrollback b)
unfolding push_scrollback
push_scrollback-IsRecent history scrollback b r =
    elim (Bool-cases (ltb scrollback_bytes (length (scrollback ++ b)))) [
      | inl e ↦
          let n = length (scrollback ++ b) - scrollback_bytes in
          let whole : history ++ b
              ≡ (r.front ++ take n (scrollback ++ b)) ++ drop n (scrollback ++ b) =
            rw (r.whole) (
              List.append_assoc r.front scrollback b
              ∙ ap (◌++◌ r.front) (sym (take-append-drop n (scrollback ++ b)))
              ∙ sym (
                  List.append_assoc r.front (take n (scrollback ++ b))
                    (drop n (scrollback ++ b)))) in
          let l : length (drop n (scrollback ++ b)) ≡ scrollback_bytes =
            ground (arith, length-drop n (scrollback ++ b)) in
          rw (e, push_scrollback)
            (record {
              front = r.front ++ take n (scrollback ++ b);
              whole = whole;
              bounded = omega (arith, l);
              full = inr l;
            })
      | inr e ↦
          rw (e, push_scrollback)
            (record {
              front = r.front;
              whole = rw (r.whole) (List.append_assoc r.front scrollback b);
              bounded = ground arith;
              full = elim r.full [
                | inl n ↦ inl n
                | inr f ↦ inr (ground (arith, f, length-append scrollback b))
              ];
            })
    ]
