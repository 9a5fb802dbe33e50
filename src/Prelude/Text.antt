-- ===== src/Prelude/Text.antt =====
-- Rust's `str` as the list of its scalar values, with the methods of the standard library that the
-- code calls. Lengths are in bytes of UTF-8.
pub mod Splitting
pub mod Order
pub mod Trimming
pub mod Objects
use Prim.Native.Char.{code}
use Prim.Native.String.{String}
use Prim.Native.Nat.{ℕ, ◌+◌, ◌/◌, ◌%◌}
use mathlib.Core.Bool.{Bool, true, false, ◌&&◌, ◌||◌}
use mathlib.Core.List.{List, [], ◌∷◌, ◌++◌}
use mathlib.Core.Option
use mathlib.Core.Option.{Option, none, some}
use termblog.Prelude.Tests.{ltb, ◌==◌, if◌then◌else◌, within}

abbrev pub Str : Type 0
Str = List ℕ

-- A literal of the source.
abbrev pub lit : String → Str
lit String.[] = []
lit (String.◌∷◌ c s) = code c ∷ lit s

-- `char::len_utf8`
abbrev pub len_utf8 : ℕ → ℕ
len_utf8 c = if ltb c 0x80 then 1 else if ltb c 0x800 then 2 else if ltb c 0x10000 then 3 else 4

-- `str::len`
abbrev pub len : Str → ℕ
len [] = 0
len (c ∷ s) = len_utf8 c + len s

-- `==` on texts
unfoldable pub eq : Str → Str → Bool
eq [] [] = true
eq [] (d ∷ t) = false
eq (c ∷ s) [] = false
eq (c ∷ s) (d ∷ t) = c == d && eq s t

-- `starts_with(char)`
abbrev pub starts_with : ℕ → Str → Bool
starts_with c [] = false
starts_with c (d ∷ s) = d == c

-- `ends_with(char)`
abbrev pub ends_with : ℕ → Str → Bool
ends_with c [] = false
ends_with c (d ∷ []) = d == c
ends_with c (d ∷ e ∷ s) = ends_with c (e ∷ s)

-- `contains(char)`
abbrev pub contains : ℕ → Str → Bool
contains c [] = false
contains c (d ∷ s) = let rest = contains c s in if d == c then true else rest

-- `strip_prefix(char)`
abbrev pub strip_prefix : ℕ → Str → Option Str
strip_prefix c [] = none
strip_prefix c (d ∷ s) = if d == c then some s else none

-- `strip_suffix(&str)`
unfoldable pub strip_suffix : Str → Str → Option Str
unfolding eq
strip_suffix suffix [] = if eq [] suffix then some [] else none
strip_suffix suffix (c ∷ s) =
    let rest = Option.map (◌∷◌ c) (strip_suffix suffix s) in
    if eq (c ∷ s) suffix then some [] else rest

abbrev pub push_front : ℕ → List Str → List Str
push_front c [] = (c ∷ []) ∷ []
push_front c (s ∷ ss) = (c ∷ s) ∷ ss

-- `split(char)`
unfoldable pub split : ℕ → Str → List Str
split c [] = [] ∷ []
split c (d ∷ s) = let rest = split c s in if d == c then [] ∷ rest else push_front d rest

abbrev add_front : ℕ → Str × Str → Str × Str
add_front c (a, b) = (c ∷ a, b)

-- `split_once(char)`
unfoldable pub split_once : ℕ → Str → Option (Str × Str)
split_once c [] = none
split_once c (d ∷ s) =
    let rest = Option.map (add_front d) (split_once c s) in if d == c then some ([], s) else rest

-- `rsplit_once(char)`
unfoldable pub rsplit_once : ℕ → Str → Option (Str × Str)
rsplit_once c [] = none
rsplit_once c (d ∷ s) = elim (rsplit_once c s) [
  | some (a, b) ↦ some (d ∷ a, b)
  | none ↦ if d == c then some ([], s) else none
]

-- `char::is_whitespace`: the property White_Space of Unicode
abbrev pub is_whitespace : ℕ → Bool
is_whitespace c =
    within 0x09 0x0d c
    || c == 0x20
    || c == 0x85
    || c == 0xa0
    || c == 0x1680
    || within 0x2000 0x200a c
    || c == 0x2028
    || c == 0x2029
    || c == 0x202f
    || c == 0x205f
    || c == 0x3000

-- `trim_start`
unfoldable pub trim_start : Str → Str
trim_start [] = []
trim_start (c ∷ s) = let rest = trim_start s in if is_whitespace c then rest else c ∷ s

-- `trim_end`
unfoldable pub trim_end : Str → Str
trim_end [] = []
trim_end (c ∷ s) = elim (trim_end s) [
  | [] ↦ if is_whitespace c then [] else c ∷ []
  | d ∷ t ↦ c ∷ d ∷ t
]

-- `trim`
unfoldable pub trim : Str → Str
unfolding trim_start trim_end
trim s = trim_end (trim_start s)

-- the bytes of UTF-8 of a scalar value
abbrev pub encode_utf8 : ℕ → List ℕ
encode_utf8 c =
    if ltb c 0x80
    then c ∷ []
    else if ltb c 0x800
    then (0xc0 + c / 64) ∷ (0x80 + c % 64) ∷ []
    else if ltb c 0x10000
    then (0xe0 + c / 4096) ∷ (0x80 + c / 64 % 64) ∷ (0x80 + c % 64) ∷ []
    else (0xf0 + c / 262144) ∷ (0x80 + c / 4096 % 64) ∷ (0x80 + c / 64 % 64) ∷ (0x80 + c % 64) ∷ []

-- `as_bytes`
abbrev pub bytes : Str → List ℕ
bytes [] = []
bytes (c ∷ s) = encode_utf8 c ++ bytes s

-- `char::is_control`: the general category Cc
abbrev pub is_control : ℕ → Bool
is_control c = within 0x00 0x1f c || within 0x7f 0x9f c
