-- ===== src/Vfs/Paths.antt =====
-- The parts of a path in kernel-core/src/vfs.rs, and the methods of `str` that it calls.
use open_kernel.Prelude.{
  ℕ, ◌≡◌, refl, Bool, false, ◌||◌, if◌then◌else◌, ◌==◌, ==_refl, Option, none, some, List, [], ◌∷◌,
  ◌++◌, arith,
}

-- `'/'`
abbrev pub slash : ℕ
slash = 47

-- `"/"`
abbrev pub root_path : List ℕ
root_path = slash ∷ []

-- `"/tmp"`
abbrev pub tmp_path : List ℕ
tmp_path = slash ∷ 116 ∷ 109 ∷ 112 ∷ []

-- `"tmp/"`
abbrev pub tmp_name : List ℕ
tmp_name = 116 ∷ 109 ∷ 112 ∷ slash ∷ []

unfoldable pub strip_prefix : List ℕ → List ℕ → Option (List ℕ)
strip_prefix [] path = some path
strip_prefix (c ∷ prefix) [] = none
strip_prefix (c ∷ prefix) (d ∷ path) =
    let rest = strip_prefix prefix path in if c == d then rest else none

unfoldable pub contains : ℕ → List ℕ → Bool
contains c [] = false
contains c (d ∷ rest) = d == c || contains c rest

-- A prefix is stripped exactly from the paths that begin with it.
pub strip_prefix-append : (prefix rest : List ℕ) → strip_prefix prefix (prefix ++ rest) ≡ some rest
unfolding strip_prefix
strip_prefix-append [] rest = refl
strip_prefix-append (c ∷ prefix) rest = rw (==_refl c) (strip_prefix-append prefix rest)

pub strip_prefix-some :
    (prefix path rest : List ℕ) → strip_prefix prefix path ≡ some rest → path ≡ prefix ++ rest
unfolding strip_prefix
strip_prefix-some [] path rest e = cc
strip_prefix-some (c ∷ prefix) [] rest e = absurd cc
strip_prefix-some (c ∷ prefix) (d ∷ path) rest e =
    ground (arith, strip_prefix-some prefix path rest)
