-- ===== src/Agents/Tor/Text.antt =====
-- Functions of Go's package strings that the tor agent uses.
use Prim.Native.Char.{code}
use tor_controller.Base.{◌≡◌, refl, ℕ, String, Bool, ◌&&◌, ◌||◌, leb, ◌==◌, if◌then◌else◌, str_eq}

-- strings.HasSuffix
unfoldable pub has_suffix : String → String → Bool
has_suffix String.[] t = str_eq "" t
has_suffix (String.◌∷◌ c s) t = str_eq (String.◌∷◌ c s) t || has_suffix s t

-- unicode.IsSpace
abbrev is_space : ℕ → Bool
is_space c =
    (leb 9 c && leb c 13)
    || c == 32
    || c == 133
    || c == 160
    || c == 5760
    || (leb 8192 c && leb c 8202)
    || c == 8232
    || c == 8233
    || c == 8239
    || c == 8287
    || c == 12288

trim_left : String → String
trim_left String.[] = ""
trim_left (String.◌∷◌ c s) =
    let rest = trim_left s in if is_space (code c) then rest else String.◌∷◌ c s

trim_right : String → String
trim_right String.[] = ""
trim_right (String.◌∷◌ c s) =
    let rest = trim_right s in if str_eq rest "" && is_space (code c) then "" else String.◌∷◌ c rest

-- strings.TrimSpace
unfoldable pub trim_space : String → String
unfolding trim_left trim_right
trim_space s = trim_right (trim_left s)

trim_space_test : trim_space " abc.onion\n" ≡ "abc.onion"
unfolding trim_space
trim_space_test = refl
