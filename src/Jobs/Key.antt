-- ===== src/Jobs/Key.antt =====
-- internal/jobs/idempotency.go: the format of an idempotency key, `^[A-Za-z0-9_-]{8,128}$`.
use Prim.Native.Char.{code}
use processing_platform.Prelude.{ℕ, String, Bool, List, [], ◌∷◌, leb, ◌==◌, ◌&&◌, ◌||◌, all, length}

-- The code points of a text.
abbrev pub codes : String → List ℕ
codes String.[] = []
codes (String.◌∷◌ c s) = code c ∷ codes s

-- The character class `[A-Za-z0-9_-]`.
unfoldable pub key_char : ℕ → Bool
key_char c =
    (leb b'A' c && leb c b'Z')
    || (leb b'a' c && leb c b'z')
    || (leb b'0' c && leb c b'9')
    || c == b'_'
    || c == b'-'

-- `ValidateIdempotencyKey` returns nil.
unfoldable pub validate_idempotency_key : String → Bool
unfolding key_char
validate_idempotency_key key =
    let cs = codes key in leb 8 (length cs) && leb (length cs) 128 && all key_char cs
