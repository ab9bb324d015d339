-- ===== src/Identity/Token.antt =====
-- identity/middleware.go: `trimBearer`.
use go_ai.Prelude.{
  ℕ, zero, suc, ◌+◌, Bool, true, false, ◌&&◌, [], ◌∷◌, leb, nat_eq, length, if◌then◌else◌,
}
use go_ai.Text.{Text}
use go_ai.Text.Space.{trim_space}
use go_ai.Identity.Config.{bearer_prefix}

unfoldable pub lower_byte : ℕ → ℕ
lower_byte c = if leb b'A' c && leb c b'Z' then c + 32 else c

-- `strings.EqualFold(s, prefix)` on as many bytes of `s` as the prefix has. Unicode folding gives
-- no letter of "Bearer " a partner outside ASCII, so the bytes are compared without their case.
unfoldable pub has_prefix_fold : Text → Text → Bool
unfolding lower_byte
has_prefix_fold s [] = true
has_prefix_fold [] (p ∷ ps) = false
has_prefix_fold (c ∷ s) (p ∷ ps) = nat_eq (lower_byte c) (lower_byte p) && has_prefix_fold s ps

abbrev pub drop : ℕ → Text → Text
drop zero s = s
drop (suc n) [] = []
drop (suc n) (c ∷ s) = drop n s

unfoldable pub strip_scheme : Text → Text
unfolding has_prefix_fold
strip_scheme value =
    if leb (length bearer_prefix) (length value) && has_prefix_fold value bearer_prefix
    then drop (length bearer_prefix) value
    else value

unfoldable pub trim_bearer : Text → Text
unfolding strip_scheme trim_space
trim_bearer value = trim_space (strip_scheme (trim_space value))
