-- ===== src/Jaild/Stats/Answered.antt =====
-- The checks of a response in crates/servers/jaild/src/jail.rs leave no target out: the targets of a
-- response are distinct, were asked for, and are as many as the request has.
use termblog.Prelude.{
  suc, ◌≤◌, ◌≡◌, refl, ◌∙◌, inl, inr, Bool, true, false, if◌then◌else◌, List, [], ◌∷◌, map, some,
  ok, all, length, arith, Bool-cases, Option-cases, Result-cases, >>=-eq-ok,
}
use termblog.Prelude.Text.{Str, eq}
use termblog.Prelude.Text.Splitting.{eq→≡, eq_refl}
use termblog.ContentModel.Manifest.{seen}
use termblog.ContentModel.Manifest.Sound.{Distinct}
use termblog.Statd.Protocol.{SnapshotTargetRequest, TargetSnapshot}
use termblog.Statd.Validate.Sorting.{eq_sym, names}
use termblog.Jaild.Stats.{
  SnapshotResponse, expected, check_target, check_targets, validate_stats_response, find_target,
}
use termblog.Jaild.Stats.Indexed.{seen_tail}

-- the list without the first occurrence of a text
abbrev without : Str → List Str → List Str
without x [] = []
without x (y ∷ ys) = let rest = without x ys in if eq x y then ys else y ∷ rest

length-without :
    (x : Str) (ys : List Str) → seen x ys ≡ true → suc (length (without x ys)) ≡ length ys
length-without x [] h = absurd (cc h)
length-without x (y ∷ ys) h = elim (Bool-cases (eq x y)) [
  | inl e ↦ ground (arith, e)
  | inr e ↦ ground (arith, e, length-without x ys (ground (arith, h, e)))
]

seen-without :
    (x y : Str) (ys : List Str) → eq y x ≡ false → seen y ys ≡ true → seen y (without x ys) ≡ true
seen-without x y [] e h = absurd (cc h)
seen-without x y (z ∷ ys) e h = elim (Bool-cases (eq y z)) [
  | inr f ↦ ground (arith, f, seen-without x y ys e (ground (arith, h, f)), h)
  | inl f ↦ elim (Bool-cases (eq x z)) [
    | inl g ↦ absurd (cc (e, eq→≡ x z g, f))
    | inr g ↦ ground (arith, f, g)
  ]
]

all-seen-without :
    (x : Str) (xs ys : List Str)
    → seen x xs ≡ false
    → all (λ k. seen k ys) xs ≡ true
    → all (λ k. seen k (without x ys)) xs ≡ true
all-seen-without x [] ys n h = refl
all-seen-without x (k ∷ xs) ys n h = ground (
  arith,
  seen-without x k ys (eq_sym k x ∙ ground (arith, n)) (ground (arith, h)),
  all-seen-without x xs ys (ground (arith, n)) (ground (arith, h)),
)

-- distinct texts of a list that are as many as the list has are all of them
pigeonhole :
    (y : Str) (xs ys : List Str)
    → Distinct xs
    → all (λ k. seen k ys) xs ≡ true
    → length ys ≤ length xs
    → seen y ys ≡ true
    → seen y xs ≡ true
pigeonhole y [] [] d h l s = s
pigeonhole y [] (z ∷ ys) d h l s = absurd (omega (arith, l))
pigeonhole y (x ∷ xs) ys d h l s = elim (Bool-cases (eq y x)) [
  | inl e ↦ ground (arith, e)
  | inr e ↦
      let shorter = length-without x ys (ground (arith, h)) in
      let found =
        pigeonhole y xs (without x ys) d.1 (all-seen-without x xs ys d.0 (ground (arith, h)))
          (omega (arith, l, shorter)) (seen-without x y ys e s) in
      ground (arith, e, found)
]

target_names : List TargetSnapshot → List Str
target_names ts = map (λ (t : TargetSnapshot). t.target) ts

expected-seen :
    (request : List SnapshotTargetRequest) (target : Str) (a : List Str)
    → expected target request ≡ some a
    → seen target (names request) ≡ true
unfolding expected
expected-seen [] target a h = absurd (cc h)
expected-seen (r ∷ request) target a h = elim (Option-cases (expected target request)) [
  | inr (b, k) ↦ ground (arith, expected-seen request target b k)
  | inl n ↦ ground (arith, h, n, eq_sym target r.target)
]

-- an accepted target was asked for and was not there before
check_target-new :
    (request : List SnapshotTargetRequest) (before : List Str) (t : TargetSnapshot)
    → check_target request before t ≡ ok tt
    → (seen t.target (names request) ≡ true) × (seen t.target before ≡ false)
unfolding check_target
check_target-new request before t h = elim (Option-cases (expected t.target request)) [
  | inl n ↦ absurd (ground (arith, h, n))
  | inr (a, n) ↦ (expected-seen request t.target a n, ground (arith, h, n))
]

check_targets-others :
    (request : List SnapshotTargetRequest) (before : List Str) (ts : List TargetSnapshot) (x : Str)
    → check_targets request before ts ≡ ok tt
    → seen x before ≡ true
    → seen x (target_names ts) ≡ false
unfolding check_targets target_names
check_targets-others request before [] x h s = refl
check_targets-others request before (t ∷ ts) x h s =
    let (unit, p, q) = >>=-eq-ok (check_target request before t) _ h in
    let (asked, fresh) = check_target-new request before t p in
    let rest = check_targets-others request (t.target ∷ before) ts x q (ground (arith, s)) in
    elim (Bool-cases (eq x t.target)) [
      | inl e ↦ absurd (cc (s, fresh, eq→≡ x t.target e))
      | inr e ↦ ground (arith, e, rest)
    ]

check_targets-Distinct :
    (request : List SnapshotTargetRequest) (before : List Str) (ts : List TargetSnapshot)
    → check_targets request before ts ≡ ok tt
    → Distinct (target_names ts) × (all (λ k. seen k (names request)) (target_names ts) ≡ true)
unfolding check_targets target_names
check_targets-Distinct request before [] h = (tt, refl)
check_targets-Distinct request before (t ∷ ts) h =
    let (unit, p, q) = >>=-eq-ok (check_target request before t) _ h in
    let (asked, fresh) = check_target-new request before t p in
    let (d, a) = check_targets-Distinct request (t.target ∷ before) ts q in
    (
      (
        check_targets-others request (t.target ∷ before) ts t.target q
            (ground (arith, eq_refl t.target)),
        d,
      ),
      ground (arith, asked, a),
    )

find_target-some :
    (target : Str) (ts : List TargetSnapshot)
    → seen target (target_names ts) ≡ true
    → (t : TargetSnapshot) × (find_target target ts ≡ some t)
unfolding find_target target_names
find_target-some target [] h = absurd (cc h)
find_target-some target (t ∷ ts) h = elim (Bool-cases (eq t.target target)) [
  | inl e ↦ (t, ground (arith, e))
  | inr e ↦
      let (u, k) = find_target-some target ts (seen_tail target t.target _ e h) in
      (u, ground (arith, e, k))
]

pub length-map : {A B : Type 0} (f : A → B) (xs : List A) → length (map f xs) ≡ length xs
length-map f [] = refl
length-map f (x ∷ xs) = ground (arith, length-map f xs)

-- What an accepted response is: its targets pass the checks, and are as many as were asked for.
pub validate_stats_response-parts :
    (is_rfc3339 : Str → Bool) (request : List SnapshotTargetRequest) (r r' : SnapshotResponse)
    → validate_stats_response is_rfc3339 request r ≡ ok r'
    → (check_targets request [] r.targets ≡ ok tt) × (length r.targets ≡ length request) × (r ≡ r')
unfolding validate_stats_response
validate_stats_response-parts is_rfc3339 request r r' h =
    elim (Result-cases (check_targets request [] r.targets)) [
      | inl (u, k) ↦ (k, ground (arith, h, k), ground (arith, h, k))
      | inr (x, k) ↦ absurd (ground (arith, h, k))
    ]

-- every target that was asked for is in an accepted response
pub find_target-asked :
    (request : List SnapshotTargetRequest) (ts : List TargetSnapshot) (target : Str)
    → check_targets request [] ts ≡ ok tt
    → length ts ≡ length request
    → seen target (names request) ≡ true
    → (t : TargetSnapshot) × (find_target target ts ≡ some t)
unfolding target_names
find_target-asked request ts target h l s =
    let (d, a) = check_targets-Distinct request [] ts h in
    find_target-some target ts (
      pigeonhole target (target_names ts) (names request) d a
        (omega (
          arith,
          l,
          length-map (λ (t : TargetSnapshot). t.target) ts,
          length-map (λ (r : SnapshotTargetRequest). r.target) request,
        ))
        s)
