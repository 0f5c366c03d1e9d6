-- ===== src/Filter/Patterns.antt =====
-- How a filter's texts become regular expressions (filter.go, addURI and addHeader; regexpUtil.go, Unglob).
use goto.Prelude.{
  Bool, true, false, [], ◌∷◌, ◌++◌, nat_beq, if◌then◌else◌, Text, codes, text_eq, ◌==◌, to_lower,
  has_prefix,
}

-- strings.TrimLeft(s, "!")
trim_left_bang : Text → Text
trim_left_bang [] = []
trim_left_bang (c ∷ s) = let rest = trim_left_bang s in if nat_beq c b'!' then rest else c ∷ s

-- util.Unglob: text without its stars, if a star ends it.
ends_with_star : Text → Bool
ends_with_star [] = false
ends_with_star (c ∷ []) = nat_beq c b'*'
ends_with_star (c ∷ d ∷ s) = ends_with_star (d ∷ s)

without_stars : Text → Text
without_stars [] = []
without_stars (c ∷ s) = let rest = without_stars s in if nat_beq c b'*' then rest else c ∷ rest

unfoldable pub unglob : Text → Text × Bool
unfolding ends_with_star without_stars
unglob s = if ends_with_star s then (without_stars s, true) else (s, false)

abbrev pub uri_pattern : Text → Text
uri_pattern uri = if uri == codes "/" then codes "^\\/?$" else codes "(?i)^" ++ (uri ++ codes "$")

unfoldable pub header_pattern : Text → Text
unfolding unglob
header_pattern value =
    let (hvalue, glob) = unglob (to_lower value) in
    codes "(?i)^" ++ ((if glob then hvalue ++ codes "(.*)?" else hvalue) ++ codes "$")

unfoldable pub is_negative : Text → Bool
is_negative uri = has_prefix uri (codes "!")

unfoldable pub match_uri_text : Text → Text
unfolding trim_left_bang
match_uri_text uri = if is_negative uri then trim_left_bang (to_lower uri) else to_lower uri
