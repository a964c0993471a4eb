-- ===== src/Quota/Sizes.antt =====
-- The size of a workspace, Size of internal/quota/quota.go, without its int64.
use vaultrun.Base.{
  ℕ, ◌+◌, ◌≤◌, ◌<◌, ◌≡◌, refl, ap, ◌∙◌, true, false, none, some, List, [], ◌∷◌, arith,
}
use vaultrun.Quota.{
  Found, gone, entry, Opened, missing, unreadable, root, int64, total_size, size, Enforcer, is_over,
}

-- The sizes of the regular files that a walk met and could ask for their size, added up.
abbrev pub bytes : List Found → ℕ
bytes [] = 0
bytes (entry true (some n) ∷ found) = n + bytes found
bytes (entry true none ∷ found) = bytes found
bytes (entry false m ∷ found) = bytes found
bytes (gone ∷ found) = bytes found

-- a sum that fits is what the loop arrives at
total_size-bytes :
    (total : ℕ) (found : List Found)
    → total + bytes found < 9223372036854775808
    → total_size total found ≡ total + bytes found
unfolding total_size
total_size-bytes total [] h = omega arith
total_size-bytes total (gone ∷ found) h = total_size-bytes total found h
total_size-bytes total (entry false m ∷ found) h = total_size-bytes total found h
total_size-bytes total (entry true none ∷ found) h = total_size-bytes total found h
total_size-bytes total (entry true (some n) ∷ found) h =
    let whole : int64 (total + n) ≡ total + n = omega (arith, h) in
    rw whole (total_size-bytes (total + n) found (omega (arith, h)) ∙ omega arith)

pub size-bytes :
    (found : List Found)
    → bytes found < 9223372036854775808
    → size (root found) ≡ some (bytes found)
unfolding size
size-bytes found h = ap (λ n. some n) (total_size-bytes 0 found (omega (arith, h)) ∙ omega arith)

pub size-missing : size missing ≡ some 0
unfolding size
size-missing = refl

pub size-unreadable : size unreadable ≡ none
unfolding size
size-unreadable = refl

pub is_over-less :
    (e : Enforcer) (n : ℕ) → n < 9223372036854775808 → e.max_bytes < n → is_over e n ≡ true
unfolding is_over
is_over-less e n small over = ground (arith, small, over)

pub is_over-within : (e : Enforcer) (n : ℕ) → n ≤ e.max_bytes → is_over e n ≡ false
unfolding is_over
is_over-within e n within = ground (arith, within)

-- The entries of a walk, none where there was no walk.
abbrev pub files : Opened → List Found
files missing = []
files unreadable = []
files (root found) = found
