-- ===== src/Text/PathLaws.antt =====
-- libutil/file.cpp: which paths `IsInRoot` accepts, what `ProtectLeafname` leaves, and the ends of the loops.
use chorale.Base.{
  ℕ, zero, suc, ◌-◌, ◌≡◌, ◌≤◌, ◌<◌, refl, sym, ◌∙◌, Bool, true, false, not, ◌&&◌, ◌||◌, none, some,
  [], ◌∷◌, ◌++◌, Bytes, codes, c_str, All, length, get_elem?, same_text, ◌==◌, arith, Bool-cases,
  inl, inr, ◌⊎◌, ==_iff, ◌↔◌, subst, ◌≢◌, if_true, if_false,
}
use chorale.Text.Paths.{
  is_protected, protect_leafname, split, is_empty, drop_common, add_parents, make_relative_path,
  has_start, is_slash, is_in_root, get_dir_name, go_up, make_absolute_path,
}

wide : (b : ℕ) → 0x80 ≤ b → (is_protected b ≡ false) × (1 ≤ b)
unfolding is_protected
wide b h = (ground arith, omega arith)

-- What `ProtectLeafname` gives holds none of the characters it protects from, and no NUL.
pub protect_leafname-safe :
    (s : Bytes) → All (λ c. (is_protected c ≡ false) × (1 ≤ c)) (protect_leafname s)
unfolding protect_leafname
protect_leafname-safe [] = tt
protect_leafname-safe (c ∷ s) = elim (Bool-cases (is_protected c)) [
  | inl bad ↦ rw bad (
    wide _ (omega arith),
    (wide _ (omega arith), (wide _ (omega arith), protect_leafname-safe s)),
  )
  | inr good ↦ elim (Bool-cases (c == 0)) [
    | inl nul ↦ rw (good, nul) (protect_leafname-safe s)
    | inr some_char ↦
        rw (good, some_char) ((good, ground (arith, some_char)), protect_leafname-safe s)
  ]
]

both : (a b : Bool) → (a && b) ≡ true → (a ≡ true) × (b ≡ true)
both true b h = (refl, h)
both false b h = cc

has_start_lem : (root rest : Bytes) → has_start (length root) root (root ++ rest) ≡ true
unfolding has_start
has_start_lem [] rest = refl
has_start_lem (c ∷ root) rest =
    let same : (c == c) ≡ true = ground arith in rw same (has_start_lem root rest)

has_start-append :
    (root path : Bytes)
    → has_start (length root) root path ≡ true
    → (rest : Bytes) × (path ≡ root ++ rest)
unfolding has_start
has_start-append [] path h = (path, refl)
has_start-append (c ∷ root) [] h = cc
has_start-append (c ∷ root) (d ∷ path) h =
    let (same, start) = both (c == d) (has_start (length root) root path) h in
    let (rest, e) = has_start-append root path start in (rest, rw ((==_iff c d).0 same, e) refl)

-- The length of the tail that `Split` gives, where there is one.
split_tail : (s : Bytes) → is_empty (split s).1 ≡ false → length (split s).1 < length s
unfolding split is_empty
split_tail [] h = cc
split_tail (c ∷ s) h = elim (Bool-cases (c == b'/')) [
  | inl slash ↦ rw slash (omega arith)
  | inr other ↦ rw other (ground (arith, split_tail s, other, h))
]

middle : (a b c : Bool) → (a || b || c) ≡ false → b ≡ false
middle false false c h = refl
middle false true c h = cc
middle true b c h = cc

drop_common-total :
    (n : ℕ) (from to : Bytes)
    → length from < n
    → (r : Bytes × Bytes) × (drop_common n from to ≡ some r) × (length r.0 ≤ length from)
unfolding drop_common
drop_common-total zero from to h = absurd (omega arith)
drop_common-total (suc n) from to h =
    elim (Bool-cases (
      not (same_text (split from).0 (split to).0)
      || is_empty (split from).1
      || is_empty (split to).1)) [
        | inl apart ↦ ((from, to), rw apart refl, omega arith)
        | inr common ↦
            let longer =
              drop_common-total n (split from).1 (split to).1
                (omega (arith, h, split_tail from (middle _ _ _ common))) in
            (
              longer.0,
              rw common longer.1,
              omega (arith, longer.2, split_tail from (middle _ _ _ common)),
            )
      ]

add_parents-total :
    (n : ℕ) (from link : Bytes) → length from < n → (r : Bytes) × (add_parents n from link ≡ some r)
unfolding add_parents
add_parents-total zero from link h = absurd (omega arith)
add_parents-total (suc n) from link h = elim (Bool-cases (is_empty (split from).1)) [
  | inl ended ↦ (link, rw ended refl)
  | inr more ↦
      let rest =
        add_parents-total n (split from).1 (codes "../" ++ link)
          (omega (arith, h, split_tail from more)) in
      (rest.0, rw more rest.1)
]

split_shorter : (s : Bytes) → length (split s).1 ≤ length s - 1
unfolding split
split_shorter [] = omega arith
split_shorter (c ∷ s) = ground (arith, split_shorter s)

go_up-total :
    (n : ℕ) (from rel : Bytes) → length rel < n → (r : Bytes) × (go_up n from rel ≡ some r)
unfolding go_up
go_up-total zero from rel h = absurd (omega arith)
go_up-total (suc n) from [] h = (_, unfold split same_text in refl)
go_up-total (suc n) from (c ∷ rel) h =
    elim (Bool-cases (same_text (split (c ∷ rel)).0 (codes ".."))) [
      | inr place ↦ (from ++ b'/' ∷ c ∷ rel, if_false _ _ place)
      | inl up ↦
          let rest =
            go_up-total n (get_dir_name (c_str from)) (split (c ∷ rel)).1
              (omega (arith, h, split_shorter (c ∷ rel))) in
          (rest.0, if_true _ _ up ∙ rest.1)
    ]

absolute_path-total : (from to : Bytes) → (r : Bytes) × (make_absolute_path from to ≡ some r)
unfolding make_absolute_path
absolute_path-total from [] = ([], refl)
absolute_path-total from (c ∷ to) = elim (Bool-cases (c == b'/')) [
  | inl slash ↦ (c ∷ to, if_true _ _ slash)
  | inr relative ↦
      let up =
        go_up-total (suc (suc (length to))) (get_dir_name (c_str from)) (c ∷ to) (omega arith) in
      (up.0, if_false _ _ relative ∙ up.1)
]

-- `MakeRelativePath` and `MakeAbsolutePath` end on all paths.
pub relative_paths-total :
    (from to : Bytes)
    → ((r : Bytes) × (make_relative_path from to ≡ some r))
      × ((r : Bytes) × (make_absolute_path from to ≡ some r))
unfolding make_relative_path
relative_paths-total from to =
    let apart = drop_common-total (suc (length from)) from to (omega arith) in
    let link =
      add_parents-total (suc (length from)) (apart.0).0 (apart.0).1 (omega (arith, apart.2)) in
    ((link.0, rw (apart.1) (link.1)), absolute_path-total from to)

after_root : (root rest : Bytes) → get_elem? (root ++ rest) (length root) ≡ get_elem? rest 0
after_root [] rest = refl
after_root (c ∷ root) rest = after_root root rest

first_of :
    (root rest : Bytes)
    → is_slash (get_elem? root 0) ≡ true
    → is_slash (get_elem? (root ++ rest) 0) ≡ true
unfolding is_slash
first_of [] rest h = cc
first_of (c ∷ root) rest h = h

-- What `IsInRoot` computes on such a root and a path that starts with it.
accepted :
    (root rest : Bytes)
    → is_slash (get_elem? root 0) ≡ true
    → is_slash (get_elem? root (length root - 1)) ≡ false
    → is_in_root (some root) (some (root ++ rest))
      ≡ elim (get_elem? rest 0) [ none ↦ true | some c ↦ c == b'/' ]
unfolding is_in_root
accepted root rest start end =
    rw (start, end, first_of root rest start, has_start_lem root rest, after_root root rest) refl

next_slash :
    (rest : Bytes)
    → (elim (get_elem? rest 0) as (λ x. Bool) [ none ↦ true | some c ↦ c == b'/' ] ≡ true)
      ↔ ((rest ≡ []) ⊎ (is_slash (get_elem? rest 0) ≡ true))
unfolding is_slash
next_slash [] = (λ h. inl refl, λ k. refl)
next_slash (c ∷ rest) = (λ h. inr h, λ k. elim k [ inl e ↦ cc | inr h ↦ h ])

true_ne_false : true ≢ false
true_ne_false = λ h. cc

refused :
    (root path : Bytes)
    → is_slash (get_elem? root 0) ≡ true
    → is_slash (get_elem? root (length root - 1)) ≡ false
    → has_start (length root) root path ≡ false
    → is_in_root (some root) (some path) ≡ false
unfolding is_in_root
refused root path start end apart = elim (Bool-cases (is_slash (get_elem? path 0))) [
  | inl first ↦ rw (start, end, first, apart) refl
  | inr other ↦ rw (start, end, other) refl
]

-- `IsInRoot`, for an absolute root without a slash at its end, accepts the root itself and what starts with the
-- root and a slash, and nothing else.
pub is_in_root_iff :
    (root path : Bytes)
    → is_slash (get_elem? root 0) ≡ true
    → is_slash (get_elem? root (length root - 1)) ≡ false
    → (is_in_root (some root) (some path) ≡ true) ↔ (
        (rest : Bytes) × (path ≡ root ++ rest)
        × ((rest ≡ []) ⊎ (is_slash (get_elem? rest 0) ≡ true)))
unfolding is_in_root
is_in_root_iff root path start end = (
  (λ h. elim (Bool-cases (has_start (length root) root path)) [
    | inr apart ↦ absurd (true_ne_false (sym h ∙ refused root path start end apart))
    | inl within ↦
        let (rest, e) = has_start-append root path within in
        let reads = subst (λ p. is_in_root (some root) (some p) ≡ true) e h in
        (rest, e, (next_slash rest).0 (sym (accepted root rest start end) ∙ reads))
  ]),
  λ (rest, e, k). rw e (accepted root rest start end ∙ (next_slash rest).1 k),
)
