-- ===== src/Commentd/Reopen.antt =====
-- The data file is read back: what `commit` writes, `open` accepts and loads
-- (crates/servers/commentd/src/store.rs).
use termblog.Prelude.{
  ℕ, ◌+◌, ◌<◌, ◌≡◌, sym, inl, inr, true, false, List, [], ◌∷◌, ◌++◌, some, ok, all, is_empty, All,
  arith, Option-cases, Result-cases,
}
use termblog.Prelude.Text.{Str, lit, len, bytes, contains, split}
use termblog.Prelude.Text.Order.{lines}
use termblog.Prelude.Text.Objects.{object-not_empty, lines-cons}
use termblog.Commentd.Stored.{
  Env, StoredComment, is_ascii_hexdigit, validate_relations, validate_stored, encode, revision,
}
use termblog.Commentd.Open.{read_lines, open_store}
use termblog.Commentd.Relations.{Ascending}

-- What the store relies on in its packages: serde_json writes a comment as an object on one line,
-- and reads back what it wrote; chrono reads the times that it formats; SHA-256 in hexadecimal has
-- 64 digits.
pub record EnvLaws (env : Env) : Type 0 where
  pub json_round_trip :
      (c : StoredComment) (line : Str) → env.to_json c ≡ some line → env.from_json line ≡ some c
  pub json_object :
      (c : StoredComment) (line : Str)
      → env.to_json c ≡ some line
      → (p : Str) × (line ≡ p ++ lit "}")
  pub json_one_line :
      (c : StoredComment) (line : Str) → env.to_json c ≡ some line → contains b'\n' line ≡ false
  pub time_round_trip :
      (t : env.Instant) → (u : env.Instant) × (env.parse_time (env.format_time t) ≡ some u)
  pub digest_length : (bs : List ℕ) → len (env.digest bs) ≡ 64
  pub digest_hexadecimal : (bs : List ℕ) → all is_ascii_hexdigit (bytes (env.digest bs)) ≡ true

module _ (env : Env) where
  abbrev pub Accepted : StoredComment → Type 0
  Accepted c = validate_stored env c ≡ ok tt

  -- What the comments of a store must be.
  pub record IsValid (cs : List StoredComment) : Type 0 where
    pub accepted : All Accepted cs
    pub ascending : Ascending 0 cs
    pub related : validate_relations cs ≡ ok tt

  read_line_parts :
      (index last_id : ℕ) (line : Str) (rest : List Str) (cs : List StoredComment)
      → read_lines env index last_id (line ∷ rest) ≡ ok cs
      → (c : StoredComment) × (tail : List StoredComment) × Accepted c
        × (last_id < c.id)
        × (read_lines env (index + 1) c.id rest ≡ ok tail)
        × (cs ≡ c ∷ tail)
  unfolding read_lines
  read_line_parts index last_id line rest cs h = elim (Option-cases (env.from_json line)) [
    | inl n ↦ absurd (ground arith)
    | inr (c, e) ↦ elim (Result-cases (read_lines env (index + 1) c.id rest)) [
      | inr (x, k) ↦ absurd (ground arith)
      | inl (tail, k) ↦ (c, tail, ground arith, ground arith, k, ground arith)
    ]
  ]

  pub read_lines_sound :
      (index last_id : ℕ) (ls : List Str) (cs : List StoredComment)
      → read_lines env index last_id ls ≡ ok cs
      → All Accepted cs × Ascending last_id cs
  read_lines_sound index last_id [] cs h = unfold read_lines in ground arith
  read_lines_sound index last_id (line ∷ rest) cs h =
      let (c, tail, v, a, k, e) = read_line_parts index last_id line rest cs h in
      let (vs, as_) = read_lines_sound (index + 1) c.id rest tail k in rw e ((v, vs), (a, as_))

module _ (env : Env) (laws : EnvLaws env) where
  encode_parts :
      (c : StoredComment) (cs : List StoredComment) (text : Str)
      → encode env (c ∷ cs) ≡ ok text
      → (line : Str) × (rest : Str) × (env.to_json c ≡ some line)
        × (encode env cs ≡ ok rest)
        × (text ≡ line ++ (b'\n' ∷ rest))
  unfolding encode
  encode_parts c cs text h = elim (Option-cases (env.to_json c)) [
    | inl n ↦ absurd (ground arith)
    | inr (line, e) ↦ elim (Result-cases (encode env cs)) [
      | inr (x, k) ↦ absurd (ground arith)
      | inl (rest, k) ↦ (line, rest, e, k, ground arith)
    ]
  ]

  read_line :
      (index last_id : ℕ) (c : StoredComment) (line : Str) (rest : List Str)
      (cs : List StoredComment)
      → is_empty line ≡ false
      → env.from_json line ≡ some c
      → Accepted env c
      → last_id < c.id
      → read_lines env (index + 1) c.id rest ≡ ok cs
      → read_lines env index last_id (line ∷ rest) ≡ ok (c ∷ cs)
  unfolding read_lines
  read_line index last_id c line rest cs e f v a h = ground (arith, e, f, v, h)

  -- The lines of an encoded list are read as that list.
  read_lines-encode :
      (index last_id : ℕ) (cs : List StoredComment) (text : Str)
      → encode env cs ≡ ok text
      → All (Accepted env) cs
      → Ascending last_id cs
      → read_lines env index last_id (lines text) ≡ ok cs
  read_lines-encode index last_id [] text h v a =
      unfold encode read_lines lines split in ground (arith, h)
  read_lines-encode index last_id (c ∷ cs) text h v a =
      let (line, rest, e, k, t) = encode_parts c cs text h in
      let (p, o) = laws.json_object c line e in
      let l : lines text ≡ line ∷ lines rest =
        rw (t, o) (lines-cons p rest (rw (sym o) (laws.json_one_line c line e))) in
      rw l (
        read_line index last_id c line (lines rest) cs (rw o (object-not_empty p))
          (laws.json_round_trip c line e) v.0 a.0
          (read_lines-encode (index + 1) c.id cs rest k v.1 a.1))

  -- Given the laws of the packages, a file with the encoding of valid comments opens as a store with
  -- these comments, which is not poisoned.
  pub open_store-encode :
      (salt : List ℕ) (cs : List StoredComment) (text : Str)
      → IsValid env cs
      → encode env cs ≡ ok text
      → open_store env salt (some text)
        ≡ ok (record {
          data_file = text;
          salt = salt;
          comments = cs;
          revision = revision env text;
          poisoned = false;
        })
  unfolding open_store
  open_store-encode salt cs text v h =
      ground (arith, read_lines-encode 0 0 cs text h v.accepted v.ascending, v.related, h)
