-- ===== src/Transport/Url/Shape.antt =====
-- What connection details look like, and which URLs share a connection.
use opentelemetry_php_distro.Prelude.{
  ℕ, ◌≡◌, refl, subst, sym, ◌∙◌, Bool, true, false, List, [], ◌∷◌, ◌++◌, Option, none, some, codes,
  arith, All,
}
use opentelemetry_php_distro.Transport.Url.{
  strip_prefix, span, is_digit, is_host, port_part, after_scheme, connection_details,
}

strip-append : (ps s : List ℕ) → strip_prefix ps (ps ++ s) ≡ some s
unfolding strip_prefix
strip-append [] s = refl
strip-append (p ∷ ps) s = ground (arith, strip-append ps s)

-- A run of accepted characters ends where a character is not accepted.
abbrev Stops : (ℕ → Bool) → List ℕ → Type 0
Stops p [] = Unit {0}
Stops p (c ∷ s) = p c ≡ false

span-append :
    (p : ℕ → Bool) (xs rest : List ℕ)
    → All (λ c. p c ≡ true) xs
    → Stops p rest
    → span p (xs ++ rest) ≡ (xs, rest)
unfolding span
span-append p [] [] a s = refl
span-append p [] (c ∷ rest) a s = rw s
span-append p (x ∷ xs) rest a s = rw (a.0, span-append p xs rest a.1 s)

-- What may follow the host, or the port: nothing, or a path.
abbrev pub StartsPath : List ℕ → Type 0
StartsPath [] = Unit {0}
StartsPath (c ∷ s) = c ≡ b'/'

host-Stops : (rest : List ℕ) → StartsPath rest → Stops is_host rest
host-Stops [] h = tt
host-Stops (c ∷ s) h = rw h

digit-Stops : (rest : List ℕ) → StartsPath rest → Stops is_digit rest
digit-Stops [] h = tt
digit-Stops (c ∷ s) h = rw h

-- The port of a URL: absent, or a colon and digits.
abbrev pub IsPort : List ℕ → Type 0
IsPort [] = Unit {0}
IsPort (c ∷ []) = ⊥
IsPort (c ∷ d ∷ ds) = (c ≡ b':') × All (λ x. is_digit x ≡ true) (d ∷ ds)

port_part-append :
    (port rest : List ℕ)
    → IsPort port
    → StartsPath rest
    → (port_part (port ++ rest) ≡ port) × Stops is_host (port ++ rest)
unfolding port_part
port_part-append [] [] p h = (refl, tt)
port_part-append [] (c ∷ s) p h = (rw h, rw h)
port_part-append (c ∷ []) rest p h = absurd p
port_part-append (c ∷ d ∷ ds) rest p h =
    let s = span-append is_digit (d ∷ ds) rest p.1 (digit-Stops rest h) in (rw (p.0, s), rw p.0)

pub data Scheme : Type 0 where
  http https : Scheme

abbrev pub scheme_text : Scheme → List ℕ
scheme_text http = codes "http://"
scheme_text https = codes "https://"

details_scheme :
    (scheme : Scheme) (s : List ℕ)
    → connection_details (scheme_text scheme ++ s) ≡ after_scheme (scheme_text scheme) s
unfolding connection_details
details_scheme http s = refl
details_scheme https s = refl

after_host :
    (scheme s : List ℕ) (h : ℕ) (hs rest : List ℕ)
    → span is_host s ≡ (h ∷ hs, rest)
    → after_scheme scheme s ≡ some (scheme ++ ((h ∷ hs) ++ port_part rest))
after_host scheme s h hs rest e =
    subst
      (λ (x : List ℕ × List ℕ).
        ◌≡◌ {A = Option (List ℕ)}
          (elim x.0 [ [] ↦ none | k ∷ ks ↦ some (scheme ++ (k ∷ ks ++ port_part x.1)) ])
          (some (scheme ++ ((h ∷ hs) ++ port_part rest))))
      (sym e) refl

-- The connection details of a URL are its scheme, host and port: the path has no part in them.
pub connection_details_url :
    (scheme : Scheme) (h : ℕ) (hs port rest : List ℕ)
    → All (λ c. is_host c ≡ true) (h ∷ hs)
    → IsPort port
    → StartsPath rest
    → connection_details (scheme_text scheme ++ ((h ∷ hs) ++ (port ++ rest)))
      ≡ some (scheme_text scheme ++ ((h ∷ hs) ++ port))
connection_details_url scheme h hs port rest a p r =
    let (pp, stops) = port_part-append port rest p r in
    let s = span-append is_host (h ∷ hs) (port ++ rest) a stops in
    details_scheme scheme ((h ∷ hs) ++ (port ++ rest))
    ∙ rw (after_host (scheme_text scheme) ((h ∷ hs) ++ (port ++ rest)) h hs (port ++ rest) s, pp)
