-- ===== src/Transport/Url.antt =====
-- getConnectionDetailsFromURL of prod/native/libcommon/code/CommonUtils.cpp: the match of
-- ^((https?):\/\/([^\/:]+))(?::(\d+))? at the start of a text without line breaks. Each part of the
-- pattern is followed by a character that it cannot take itself, so the match does not backtrack.
pub mod Shape
use opentelemetry_php_distro.Prelude.{
  ℕ, zero, suc, Bool, true, false, not, ◌&&◌, ◌||◌, List, [], ◌∷◌, ◌++◌, Option, none, some, ltb,
  leb, ◌==◌, codes, if◌then◌else◌,
}

-- The rest of a text behind a prefix.
unfoldable pub strip_prefix : List ℕ → List ℕ → Option (List ℕ)
strip_prefix [] s = some s
strip_prefix (p ∷ ps) [] = none
strip_prefix (p ∷ ps) (c ∷ s) = if p == c then strip_prefix ps s else none

-- The longest prefix of characters that satisfy a test, and the rest.
unfoldable pub span : (ℕ → Bool) → List ℕ → List ℕ × List ℕ
span p [] = ([], [])
span p (c ∷ s) = let r = span p s in if p c then (c ∷ r.0, r.1) else ([], c ∷ s)

abbrev pub is_digit : ℕ → Bool
is_digit c = leb b'0' c && leb c b'9'

abbrev pub is_host : ℕ → Bool
is_host c = not (c == b'/' || c == b':')

-- The optional port, with its colon.
pub port_part : List ℕ → List ℕ
unfolding span
port_part [] = []
port_part (c ∷ s) =
    let digits = (span is_digit s).0 in
    if c == b':' then elim digits [ [] ↦ [] | d ∷ ds ↦ b':' ∷ d ∷ ds ] else []

abbrev after_scheme : List ℕ → List ℕ → Option (List ℕ)
after_scheme scheme s = elim (span is_host s).0 [
  | [] ↦ none
  | h ∷ hs ↦ some (scheme ++ (h ∷ hs ++ port_part (span is_host s).1))
]

pub connection_details : List ℕ → Option (List ℕ)
unfolding strip_prefix span port_part
connection_details url = elim (strip_prefix (codes "https://") url) [
  | some s ↦ after_scheme (codes "https://") s
  | none ↦ elim (strip_prefix (codes "http://") url) [
    | some s ↦ after_scheme (codes "http://") s
    | none ↦ none
  ]
]
