-- ===== src/ContentBuild/Render/Width.antt =====
-- The columns of a rendered line: its escape sequences take none.
use termblog.Prelude.{
  ℕ, ◌+◌, ◌≡◌, refl, sym, ◌∙◌, ap, Bool, true, false, ◌==◌, not, ◌&&◌, ◌||◌, if◌then◌else◌, List,
  [], ◌∷◌, ◌++◌, map, Option, none, some, All, arith,
}
use mathlib.Core.List.{append_assoc, append-nil}
use termblog.Prelude.Text.{Str, lit}
use termblog.ContentBuild.Wrap.{Seg, atom, atoms, same_link, total}
use termblog.ContentBuild.Wrap.Breaks.{total-append}
use termblog.ContentBuild.Render.{
  esc, has, osc8_close, only_if, intensity, change_style, is_some, open_link, is_ascii_alphabetic,
  before_text, render_from, render_line, osc, next_place, columns, visible_at, visible_width,
  turned_off, turned_on, bold, italic, dim, cyan,
}

-- a text with no ESC
abbrev pub is_plain : Str → Bool
is_plain [] = true
is_plain (c ∷ s) = not (c == esc) && is_plain s

-- a link with no ESC and no BEL
abbrev pub is_address : Str → Bool
is_address [] = true
is_address (c ∷ s) = not (c == esc || c == 0x07) && is_address s

abbrev pub is_target : Option Str → Bool
is_target none = true
is_target (some l) = is_address l

abbrev pub is_printable : Seg → Bool
is_printable seg = is_plain seg.t && is_target seg.link

module _ (width_of : ℕ → ℕ) where
  -- sequences that take no column and leave the reader in the text
  unfoldable Silent : Str → Type 0
  Silent s = (u : Str) → visible_width width_of (s ++ u) ≡ visible_width width_of u

  Silent-nil : Silent []
  unfolding Silent
  Silent-nil u = refl

  Silent-append : (s t : Str) → Silent s → Silent t → Silent (s ++ t)
  unfolding Silent
  Silent-append s t hs ht u =
      ap (visible_width width_of) (append_assoc s t u) ∙ (hs (t ++ u) ∙ ht u)

  Silent-only_if : (b : Bool) (s : Str) → Silent s → Silent (only_if b s)
  unfolding only_if
  Silent-only_if true s h = h
  Silent-only_if false s h = Silent-nil

  -- `ESC [ d m`
  Silent-sgr : (d : ℕ) → is_ascii_alphabetic d ≡ false → Silent (esc ∷ b'[' ∷ d ∷ b'm' ∷ [])
  unfolding Silent visible_at next_place columns
  Silent-sgr d h u = ground arith

  -- `ESC [ d e m`
  Silent-sgr_two :
      (d e : ℕ)
      → is_ascii_alphabetic d ≡ false
      → is_ascii_alphabetic e ≡ false
      → Silent (esc ∷ b'[' ∷ d ∷ e ∷ b'm' ∷ [])
  unfolding Silent visible_at next_place columns
  Silent-sgr_two d e h k u = ground arith

  Silent-if : (b : Bool) (s t : Str) → Silent s → Silent t → Silent (if b then s else t)
  Silent-if true s t hs ht = hs
  Silent-if false s t hs ht = ht

  only_if-append : (b : Bool) (s t : Str) → Silent s → Silent t → Silent (only_if b s ++ t)
  only_if-append b s t hs ht = Silent-append (only_if b s) t (Silent-only_if b s hs) ht

  Silent-bold_dim :
      (b d : Bool) → Silent (only_if b (esc ∷ lit "[1m") ++ only_if d (esc ∷ lit "[2m"))
  Silent-bold_dim b d =
      only_if-append b (esc ∷ lit "[1m") _ (Silent-sgr b'1' refl)
        (Silent-only_if d (esc ∷ lit "[2m") (Silent-sgr b'2' refl))

  Silent-intensity : (active s : ℕ) → Silent (intensity active s)
  unfolding intensity
  Silent-intensity active s =
      Silent-if (turned_off bold active s || turned_off dim active s) _ _
        (Silent-append (esc ∷ lit "[22m") _ (Silent-sgr_two b'2' b'2' refl refl)
          (Silent-bold_dim (has bold s) (has dim s)))
        (Silent-bold_dim (turned_on bold active s) (turned_on dim active s))

  Silent-change_style : (active s : ℕ) → Silent (change_style active s)
  unfolding change_style
  Silent-change_style active s =
      only_if-append (turned_off italic active s) (esc ∷ lit "[23m") _
        (Silent-sgr_two b'2' b'3' refl refl)
        (only_if-append (turned_off cyan active s) (esc ∷ lit "[39m") _
          (Silent-sgr_two b'3' b'9' refl refl)
          (Silent-append (intensity active s) _ (Silent-intensity active s) (
            only_if-append (turned_on italic active s) (esc ∷ lit "[3m") _ (Silent-sgr b'3' refl) (
              Silent-only_if (turned_on cyan active s) (esc ∷ lit "[36m")
                (Silent-sgr_two b'3' b'6' refl refl)))))

  Silent-osc8_close : Silent osc8_close
  unfolding Silent visible_at next_place columns
  Silent-osc8_close u = ground arith

  -- in an OSC sequence: an address is skipped up to `ESC \`
  skip-address :
      (l u : Str)
      → is_address l ≡ true
      → visible_at width_of (osc false) (l ++ (esc ∷ lit "\\") ++ u) ≡ visible_width width_of u
  unfolding visible_at next_place columns
  skip-address [] u h = ground arith
  skip-address (c ∷ l) u h = ground (arith, skip-address l u)

  Silent-open_link : (link : Option Str) → is_target link ≡ true → Silent (open_link link)
  unfolding Silent visible_at next_place columns
  Silent-open_link none h u = refl
  Silent-open_link (some l) h u = ground (arith, skip-address l u h)

  Silent-before_text :
      (active : ℕ) (active_link : Option Str) (seg : Seg)
      → is_target seg.link ≡ true
      → Silent (before_text active active_link seg)
  unfolding before_text
  Silent-before_text active active_link seg h =
      only_if-append (not (same_link active_link seg.link) && is_some active_link) osc8_close _
        Silent-osc8_close
        (Silent-append (change_style active seg.s) _ (Silent-change_style active seg.s) (
          Silent-only_if (not (same_link active_link seg.link)) (open_link seg.link)
            (Silent-open_link seg.link h)))

  -- the text of a segment takes the columns of its characters
  visible_width-plain :
      (seg : Seg) (s u : Str)
      → is_plain s ≡ true
      → visible_width width_of (s ++ u)
        ≡ total width_of (map (atom seg) s) + visible_width width_of u
  unfolding visible_at next_place columns total
  visible_width-plain seg [] u h = ground arith
  visible_width-plain seg (c ∷ s) u h = ground (arith, visible_width-plain seg s u)

  visible_width-Silent :
      (s u : Str) → Silent s → visible_width width_of (s ++ u) ≡ visible_width width_of u
  unfolding Silent
  visible_width-Silent s u h = h u

  visible_width-ending : (s : Str) → Silent s → visible_width width_of s ≡ 0
  unfolding Silent visible_at
  visible_width-ending s h = ap (visible_width width_of) (sym (append-nil s)) ∙ h []

  visible_width-render_from :
      (active : ℕ) (active_link : Option Str) (segs : List Seg)
      → All (λ seg. is_printable seg ≡ true) segs
      → visible_width width_of (render_from active active_link segs) ≡ total width_of (atoms segs)
  unfolding render_from atoms total
  visible_width-render_from active active_link [] h = visible_width-ending _ (
      only_if-append (is_some active_link) osc8_close _ Silent-osc8_close
        (Silent-only_if (not (active == 0)) (esc ∷ lit "[0m") (Silent-sgr b'0' refl)))
  visible_width-render_from active active_link (seg ∷ segs) h =
      let rest =
        render_from seg.s (if same_link active_link seg.link then active_link else seg.link) segs in
      visible_width-Silent _ _ (Silent-before_text active active_link seg (ground (arith, h.0)))
      ∙ (visible_width-plain seg seg.t rest (ground (arith, h.0))
          ∙ omega (
            arith,
            visible_width-render_from seg.s
                (if same_link active_link seg.link then active_link else seg.link) segs h.1,
            total-append width_of (map (atom seg) seg.t) (atoms segs),
          ))

  -- The columns of a rendered line are the widths of its characters, if no text has an ESC and no link
  -- an ESC or a BEL.
  pub visible_width-render_line :
      (segs : List Seg)
      → All (λ seg. is_printable seg ≡ true) segs
      → visible_width width_of (render_line segs) ≡ total width_of (atoms segs)
  visible_width-render_line segs h = visible_width-render_from 0 none segs h
