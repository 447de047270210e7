-- ===== src/Text/Paths.antt =====
-- libutil/file.cpp and file_posix.cpp: names of files, relative and absolute paths.
use chorale.Base.{
  ℕ, zero, suc, ◌+◌, ◌-◌, ◌/◌, ◌%◌, ◌^◌, Bool, true, false, not, ◌&&◌, ◌||◌, Option, none, some, [],
  ◌∷◌, ◌++◌, Bytes, codes, c_str, same_text, length, get_elem?, take, drop, ltb, ◌==◌,
  if◌then◌else◌, ◌>>=◌,
}

-- `strrchr`
unfoldable pub last_index_of : ℕ → Bytes → Option ℕ
last_index_of x [] = none
last_index_of x (c ∷ s) = elim (last_index_of x s) [
  | some k ↦ some (suc k)
  | none ↦ if c == x then some 0 else none
]

unfoldable pub get_leaf_name : Bytes → Bytes
unfolding last_index_of
get_leaf_name name = elim (last_index_of b'/' name) [ none ↦ name | some k ↦ drop (suc k) name ]

unfoldable pub get_dir_name : Bytes → Bytes
unfolding last_index_of
get_dir_name name = elim (last_index_of b'/' name) [ none ↦ [] | some k ↦ take k name ]

-- The last dot, if no slash follows it.
unfoldable pub extension_dot : Bytes → Option ℕ
unfolding last_index_of
extension_dot name = elim (last_index_of b'.' name) [
  | none ↦ none
  | some dot ↦ elim (last_index_of b'/' name) [
    | none ↦ some dot
    | some slash ↦ if ltb dot slash then none else some dot
  ]
]

unfoldable pub get_extension : Bytes → Bytes
unfolding extension_dot
get_extension name = elim (extension_dot name) [ none ↦ [] | some k ↦ drop (suc k) name ]

unfoldable pub strip_extension : Bytes → Bytes
unfolding extension_dot
strip_extension name = elim (extension_dot name) [ none ↦ name | some k ↦ take k name ]

-- The characters that FAT does not take.
unfoldable pub is_protected : ℕ → Bool
is_protected c =
    (c == b'/')
    || (c == b':')
    || (c == b'\\')
    || (c == b'?')
    || (c == b'"')
    || (c == b'|')
    || (c == b'<')
    || (c == b'>')
    || (c == b'*')

unfoldable pub protect_leafname : Bytes → Bytes
unfolding is_protected
protect_leafname [] = []
protect_leafname (c ∷ s) =
    let rest = protect_leafname s in
    let ucs4 = 0xFF00 + (c - 0x20) in
    if is_protected c
    then (0xE0 + ucs4 / 2 ^ 12) ∷ (0x80 + ucs4 / 2 ^ 6 % 2 ^ 6) ∷ (0x80 + ucs4 % 2 ^ 6) ∷ rest
    else if c == 0
    then rest
    else c ∷ rest

-- `Split`: what stands before the first slash, and after it.
unfoldable pub split : Bytes → Bytes × Bytes
split [] = ([], [])
split (c ∷ s) = let rest = split s in if c == b'/' then ([], s) else (c ∷ rest.0, rest.1)

unfoldable pub is_empty : Bytes → Bool
is_empty [] = true
is_empty (_ ∷ _) = false

-- The loop that drops the common root, and what remains of the two paths.
unfoldable pub drop_common : ℕ → Bytes → Bytes → Option (Bytes × Bytes)
unfolding split is_empty same_text
drop_common zero remain1 remain2 = none
drop_common (suc n) remain1 remain2 =
    let rest = drop_common n (split remain1).1 (split remain2).1 in
    if not (same_text (split remain1).0 (split remain2).0)
      || is_empty (split remain1).1
      || is_empty (split remain2).1
    then some (remain1, remain2)
    else rest

-- The loop that adds `../` for each directory that is left of `from`.
unfoldable pub add_parents : ℕ → Bytes → Bytes → Option Bytes
unfolding split is_empty
add_parents zero remain1 link = none
add_parents (suc n) remain1 link =
    let rest = add_parents n (split remain1).1 (codes "../" ++ link) in
    if is_empty (split remain1).1 then some link else rest

unfoldable pub make_relative_path : Bytes → Bytes → Option Bytes
unfolding drop_common add_parents
make_relative_path from to =
    drop_common (suc (length from)) from to >>= λ r. add_parents (suc (length from)) r.0 r.1

-- The loop that goes up a directory for each leading `..`.
unfoldable pub go_up : ℕ → Bytes → Bytes → Option Bytes
unfolding split same_text get_dir_name c_str
go_up zero remain_from remain_rel = none
go_up (suc n) remain_from remain_rel =
    let rest = go_up n (get_dir_name (c_str remain_from)) (split remain_rel).1 in
    if same_text (split remain_rel).0 (codes "..")
    then rest
    else some (remain_from ++ b'/' ∷ remain_rel)

unfoldable pub make_absolute_path : Bytes → Bytes → Option Bytes
unfolding go_up get_dir_name c_str
make_absolute_path from [] = some []
make_absolute_path from (c ∷ rel) =
    if c == b'/'
    then some (c ∷ rel)
    else go_up (suc (suc (length rel))) (get_dir_name (c_str from)) (c ∷ rel)

-- `strncmp(root, path, n) == 0`, where `root` has at least `n` characters, none of them NUL.
unfoldable pub has_start : ℕ → Bytes → Bytes → Bool
has_start zero root path = true
has_start (suc n) (a ∷ root) (b ∷ path) = (a == b) && has_start n root path
has_start (suc n) _ _ = false

unfoldable pub is_slash : Option ℕ → Bool
is_slash none = false
is_slash (some c) = c == b'/'

-- `none` is a null pointer.
unfoldable pub is_in_root : Option Bytes → Option Bytes → Bool
unfolding has_start is_slash
is_in_root none path = false
is_in_root (some root) none = false
is_in_root (some root) (some path) =
    let rootlen =
      if is_slash (get_elem? root (length root - 1)) then length root - 1 else length root in
    if not (is_slash (get_elem? root 0)) || not (is_slash (get_elem? path 0))
    then false
    else if not (has_start rootlen root path)
    then false
    else (elim (get_elem? path rootlen) [ none ↦ true | some c ↦ c == b'/' ])

-- The calls of the file system that `MkdirParents` makes.
pub record FileSystem (S : Type 0) : Type 0 where
  pub dir_exists : S → Bytes → Bool
  pub mkdir : S → Bytes → ℕ × S

-- ENOTDIR is 20 and EEXIST is 17. A parent is shorter than its leaf, so the length counts the calls.
unfoldable pub mkdir_parents : {S : Type 0} → FileSystem S → ℕ → Bytes → S → Option (ℕ × S)
unfolding last_index_of
mkdir_parents fs zero leafname s = none
mkdir_parents fs (suc n) leafname s = elim (last_index_of b'/' leafname) [
  | none ↦ some (20, s)
  | some k ↦
      if fs.dir_exists s (take k leafname)
      then some (0, s)
      else elim (mkdir_parents fs n (take k leafname) s) [
        | none ↦ none
        | some (suc rc, s') ↦ some (suc rc, s')
        | some (zero, s') ↦
            let made = fs.mkdir s' (take k leafname) in
            some ((if made.0 == 17 then 0 else made.0), made.1)
      ]
]
