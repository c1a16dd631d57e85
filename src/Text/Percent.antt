-- ===== src/Text/Percent.antt =====
-- percentDecode and parseUrlEncodedKeyValueString of prod/native/libcommon/code/CommonUtils.cpp.
pub mod Laws
use opentelemetry_php_distro.Prelude.{
  ℕ, zero, suc, ◌+◌, ◌-◌, ◌*◌, Bool, true, false, ◌&&◌, ◌||◌, List, [], ◌∷◌, Option, none, some,
  ltb, leb, ◌==◌, length, emplace, bytes_eq, if◌then◌else◌,
}

-- std::isxdigit
abbrev pub is_xdigit : ℕ → Bool
is_xdigit c =
    (leb b'0' c && leb c b'9') || ((leb b'A' c && leb c b'F') || (leb b'a' c && leb c b'f'))

-- The value of a hexadecimal digit, as std::stoi takes it.
abbrev pub hex_value : ℕ → ℕ
hex_value c = if leb c b'9' then c - b'0' else if leb c b'F' then c - b'A' + 10 else c - b'a' + 10

unfoldable pub percent_decode : List ℕ → List ℕ
percent_decode [] = []
percent_decode (c ∷ []) = c ∷ []
percent_decode (c ∷ a ∷ []) = c ∷ a ∷ []
percent_decode (c ∷ a ∷ b ∷ s) =
    let decoded = (hex_value a * 16 + hex_value b) ∷ percent_decode s in
    let kept = c ∷ percent_decode (a ∷ b ∷ s) in
    if c == b'%' && (is_xdigit a && is_xdigit b) then decoded else kept

-- A text up to a character, and what follows the character if it is there.
unfoldable pub cut : ℕ → List ℕ → List ℕ × Option (List ℕ)
cut at [] = ([], none)
cut at (c ∷ s) = let r = cut at s in if c == at then ([], some s) else (c ∷ r.0, r.1)

-- One pair: a text without '=' is skipped, and a key that is there stays.
unfoldable pub insert_pair : List ℕ → List (List ℕ × List ℕ) → List (List ℕ × List ℕ)
unfolding cut percent_decode
insert_pair pair m = elim (cut b'=' pair).1 [
  | none ↦ m
  | some value ↦ emplace (cut b'=' pair).0 (percent_decode value) m
]

-- The loop; each round takes a pair and its comma, so the length of the input is fuel enough.
unfoldable pub pairs_loop : ℕ → List ℕ → List (List ℕ × List ℕ) → List (List ℕ × List ℕ)
unfolding insert_pair
pairs_loop fuel [] m = m
pairs_loop zero (c ∷ s) m = m
pairs_loop (suc fuel) (c ∷ s) m =
    let m' = insert_pair (cut b',' (c ∷ s)).0 m in
    elim (cut b',' (c ∷ s)).1 [ none ↦ m' | some rest ↦ pairs_loop fuel rest m' ]

unfoldable pub parse_url_encoded_key_value_string : List ℕ → List (List ℕ × List ℕ)
unfolding pairs_loop
parse_url_encoded_key_value_string input = pairs_loop (length input) input []
