-- ===== src/Content/Trunc/Emptied.antt =====
-- What itrunc of src/fs/bmap.c leaves of the inode.
use fleurix.Base.{ℕ, ◌<◌, ◌≡◌}
use fleurix.Kernel.{Inode}
use fleurix.Content.{Fs, Action, Gives}

-- The first `n` zones are gone.
abbrev Cleared : ℕ → Inode → Type 0
Cleared n ip = (k : ℕ) → k < n → ip.zone k ≡ 0

-- An action that leaves the inode alone.
abbrev Keeps : {A : Type 0} → Action A → Type 0
Keeps {A} act = (t : Fs) → Gives {A = A} (λ u _. u.ip ≡ t.ip) (act t)
