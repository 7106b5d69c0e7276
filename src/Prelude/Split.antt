-- ===== src/Prelude/Split.antt =====
-- `g_strsplit` with a delimiter of one byte, and `g_strjoinv`.
use Prim.Native.Nat.{ℕ}
use mathlib.Core.Path.{◌≡◌, refl, ap, ◌∙◌}
use mathlib.Core.Logic.{◌≢◌}
use mathlib.Core.Bool.{false}
use mathlib.Core.List.{List, [], ◌∷◌, ◌++◌, append-nil}
use native.Mathlib.Omega.{arith}
use rauc.Prelude.Tests.{◌==◌, if◌then◌else◌}
use rauc.Prelude.Lists.{All}
use rauc.Prelude.Strings.{Text}

-- A byte before the first piece: a delimiter opens a new piece.
abbrev push_byte : ℕ → ℕ → Text × List Text → Text × List Text
push_byte d c (p, ps) = if c == d then ([], p ∷ ps) else (c ∷ p, ps)

-- The first piece and the others.
unfoldable pub pieces : ℕ → Text → Text × List Text
pieces d [] = ([], [])
pieces d (c ∷ s) = push_byte d c (pieces d s)

abbrev pub list_of : Text × List Text → List Text
list_of (p, ps) = p ∷ ps

-- `g_strsplit(s, d, -1)`: the vector is empty for the empty string.
unfoldable pub strsplit : ℕ → Text → List Text
unfolding pieces
strsplit d [] = []
strsplit d (c ∷ s) = list_of (pieces d (c ∷ s))

unfoldable pub join_rest : ℕ → List Text → Text
join_rest d [] = []
join_rest d (x ∷ xs) = d ∷ (x ++ join_rest d xs)

-- `g_strjoinv`
unfoldable pub strjoinv : ℕ → List Text → Text
unfolding join_rest
strjoinv d [] = []
strjoinv d (x ∷ xs) = x ++ join_rest d xs

abbrev pub Free : ℕ → Text → Type 0
Free d s = All (λ c. (c == d) ≡ false) s

pub pieces-append_delim :
    (d : ℕ) (s r : Text) → Free d s → pieces d (s ++ d ∷ r) ≡ (s, list_of (pieces d r))
unfolding pieces
pieces-append_delim d [] r h = ground arith
pieces-append_delim d (c ∷ s) r h = rw (pieces-append_delim d s r h.1, h.0)

pub pieces-Free : (d : ℕ) (s : Text) → Free d s → pieces d s ≡ (s, [])
unfolding pieces
pieces-Free d [] h = refl
pieces-Free d (c ∷ s) h = rw (pieces-Free d s h.1, h.0)

pub pieces-join_rest :
    (d : ℕ) (x : Text) (xs : List Text)
    → Free d x
    → All (Free d) xs
    → pieces d (x ++ join_rest d xs) ≡ (x, xs)
unfolding join_rest
pieces-join_rest d x [] h k = rw append-nil (pieces-Free d x h)
pieces-join_rest d x (y ∷ ys) h k =
    rw (pieces-append_delim d x (y ++ join_rest d ys) h, pieces-join_rest d y ys k.0 k.1)

pub strsplit-eq : (d : ℕ) (s : Text) → s ≢ [] → strsplit d s ≡ list_of (pieces d s)
unfolding strsplit
strsplit-eq d [] n = absurd (n refl)
strsplit-eq d (c ∷ s) n = refl

-- Splitting undoes joining, where no name holds the delimiter and the text is not empty.
pub strsplit-strjoinv :
    (d : ℕ) (xs : List Text)
    → All (Free d) xs
    → strjoinv d xs ≢ []
    → strsplit d (strjoinv d xs) ≡ xs
unfolding strjoinv
strsplit-strjoinv d [] h n = absurd (n refl)
strsplit-strjoinv d (x ∷ xs) h n =
    strsplit-eq d (x ++ join_rest d xs) n ∙ ap list_of (pieces-join_rest d x xs h.0 h.1)
