-- ===== src/Base/Bytes.antt =====
-- The bytes of a text.
use Prim.Native.Char.{code}
use Prim.Native.Nat.{ℕ}
use Prim.Native.String.{String, ◌++◌ as ◌<>◌}
use mathlib.Core.Path.{◌≡◌, ap, ◌∙◌}
use mathlib.Core.List.{List, [], ◌∷◌, ◌++◌}
use text.Mathlib.TextLemmas.{nil-append, cons-append}

-- A Go text is its bytes; the characters of a text stand for them.
abbrev pub bytes : String → List ℕ
bytes String.[] = []
bytes (String.◌∷◌ c s) = code c ∷ bytes s

pub bytes-append : (s t : String) → bytes (s <> t) ≡ bytes s ++ bytes t
bytes-append String.[] t = ap bytes (nil-append t)
bytes-append (String.◌∷◌ c s) t =
    ap bytes (cons-append c s t) ∙ ap (λ x. code c ∷ x) (bytes-append s t)
