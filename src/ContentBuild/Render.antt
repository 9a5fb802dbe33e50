-- ===== src/ContentBuild/Render.antt =====
-- `render_line` and `visible_width` of crates/tools/content-build/src/ansi.rs: a line of styled text as
-- the characters and escape sequences that a terminal gets, and the columns that these take.
pub mod Width
pub mod Wrapped
mod Examples
use termblog.Prelude.{
  ℕ, ◌+◌, ◌/◌, ◌%◌, Bool, true, false, not, ◌&&◌, ◌||◌, ◌==◌, if◌then◌else◌, List, [], ◌∷◌, ◌++◌,
  within, Option, none, some,
}
use termblog.Prelude.Text.{Str, lit}
use termblog.ContentBuild.Wrap.{Seg, same_link}

abbrev pub bold : ℕ
bold = 1

abbrev pub italic : ℕ
italic = 2

abbrev pub dim : ℕ
dim = 4

abbrev pub cyan : ℕ
cyan = 8

-- `s & mask != 0`, for a mask of one bit
abbrev pub has : ℕ → ℕ → Bool
has mask s = (s / mask) % 2 == 1

-- the character ESC
abbrev pub esc : ℕ
esc = 0x1b

abbrev pub osc8_open : Str → Str
osc8_open url = (esc ∷ lit "]8;;") ++ (url ++ (esc ∷ lit "\\"))

abbrev pub osc8_close : Str
osc8_close = esc ∷ (lit "]8;;" ++ (esc ∷ lit "\\"))

-- what an `if` pushes
unfoldable pub only_if : Bool → Str → Str
only_if b s = if b then s else []

-- the bit is in `active & !s`, or in `s & !active`
abbrev pub turned_off : ℕ → ℕ → ℕ → Bool
turned_off mask active s = has mask active && not (has mask s)

abbrev pub turned_on : ℕ → ℕ → ℕ → Bool
turned_on mask active s = has mask s && not (has mask active)

-- bold and dim, which one sequence turns off
unfoldable pub intensity : ℕ → ℕ → Str
intensity active s =
    if turned_off bold active s || turned_off dim active s
    then (esc ∷ lit "[22m")
      ++ (only_if (has bold s) (esc ∷ lit "[1m") ++ only_if (has dim s) (esc ∷ lit "[2m"))
    else only_if (turned_on bold active s) (esc ∷ lit "[1m")
      ++ only_if (turned_on dim active s) (esc ∷ lit "[2m")

-- from the active style to that of the segment
unfoldable pub change_style : ℕ → ℕ → Str
change_style active s =
    only_if (turned_off italic active s) (esc ∷ lit "[23m")
    ++ (only_if (turned_off cyan active s) (esc ∷ lit "[39m")
        ++ (intensity active s
            ++ (only_if (turned_on italic active s) (esc ∷ lit "[3m")
                ++ only_if (turned_on cyan active s) (esc ∷ lit "[36m"))))

abbrev pub is_some : Option Str → Bool
is_some none = false
is_some (some l) = true

abbrev pub open_link : Option Str → Str
open_link none = []
open_link (some l) = osc8_open l

-- what the loop pushes before the text of a segment
unfoldable pub before_text : ℕ → Option Str → Seg → Str
before_text active active_link seg =
    only_if (not (same_link active_link seg.link) && is_some active_link) osc8_close
    ++ (change_style active seg.s
        ++ only_if (not (same_link active_link seg.link)) (open_link seg.link))

-- the loop, and what is pushed after it
unfoldable pub render_from : ℕ → Option Str → List Seg → Str
render_from active active_link [] =
    only_if (is_some active_link) osc8_close ++ only_if (not (active == 0)) (esc ∷ lit "[0m")
render_from active active_link (seg ∷ segs) =
    before_text active active_link seg
    ++ (seg.t
        ++ render_from seg.s (if same_link active_link seg.link then active_link else seg.link)
            segs)

abbrev pub render_line : List Seg → Str
render_line segs = render_from 0 none segs

-- where `visible_width` stands: in the text, behind an ESC, in an OSC sequence with `prev_esc`, or in
-- another sequence, which ends at a letter
pub data Place : Type 0 where
  text : Place
  escape : Place
  osc : Bool → Place
  csi : Place

abbrev pub is_ascii_alphabetic : ℕ → Bool
is_ascii_alphabetic c = within b'A' b'Z' c || within b'a' b'z' c

abbrev pub in_csi : ℕ → Place
in_csi c = if is_ascii_alphabetic c then text else csi

-- the place behind the next character
unfoldable pub next_place : Place → ℕ → Place
next_place text c = if c == esc then escape else text
next_place escape c = if c == b']' then osc false else in_csi c
next_place (osc prev_esc) c = if c == 0x07 || prev_esc && c == b'\\' then text else osc (c == esc)
next_place csi c = in_csi c

module _ (width_of : ℕ → ℕ) where
  unfoldable pub columns : Place → ℕ → ℕ
  columns text c = if c == esc then 0 else width_of c
  columns escape c = 0
  columns (osc prev_esc) c = 0
  columns csi c = 0

  unfoldable pub visible_at : Place → Str → ℕ
  visible_at place [] = 0
  visible_at place (c ∷ s) = columns place c + visible_at (next_place place c) s

  abbrev pub visible_width : Str → ℕ
  visible_width s = visible_at text s
