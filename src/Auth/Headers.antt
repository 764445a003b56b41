-- ===== src/Auth/Headers.antt =====
-- internal/auth/middleware.go: the headers that carry credentials, and what the checks of the
-- credentials ask for.
use at.Prelude.{
  ℕ, ◌+◌, ◌<◌, ◌≡◌, ◌⊎◌, inl, inr, refl, ap, ◌∙◌, arith, false, Option, none, some, [], ◌∷◌, ◌++◌,
}
use at.Prelude.Eq.{==_iff}
use at.Prelude.Text.{Text, ascii, text_eq, cut_prefix, cut_prefix-some, split_once, split_once-some}
use at.Prelude.Try.{gives, gives_injective}
use at.Auth.{
  lower_first, get_raw_token, cut_basic, cut_bearer, TokenType, invalid, empty, bearer, basic,
  parse_basic_auth, decoded, two_parts, Opts, is_not_admin,
}

lower_first-ascii :
    (c d : ℕ) (s t : Text)
    → lower_first c ++ s ≡ d ∷ t
    → d < 128
    → (s ≡ t) × ((c ≡ d) ⊎ (c + 32 ≡ d))
unfolding lower_first
lower_first-ascii c d s t h l = ground arith

-- `header` is the scheme, with its first letter in either case, a space and `raw`.
abbrev pub HasScheme : ℕ → Text → Text → Text → Type 0
HasScheme small scheme header raw =
    (c : ℕ) × ((c ≡ small) ⊎ (c + 32 ≡ small)) × (header ≡ c ∷ scheme ++ raw)

cut_basic-bearer : (o : Option Text) (raw : Text) → ¬ (cut_basic o ≡ (raw, bearer))
unfolding cut_basic
cut_basic-bearer none raw e = let q : invalid ≡ bearer = ap (λ (p : Text × TokenType). p.1) e in cc
cut_basic-bearer (some v) raw e =
    let q : basic ≡ bearer = ap (λ (p : Text × TokenType). p.1) e in cc

cut_bearer-bearer :
    (h : Text) (o : Option Text) (raw : Text) → cut_bearer h o ≡ (raw, bearer) → o ≡ some raw
unfolding cut_bearer
cut_bearer-bearer h (some v) raw e = ap (λ (p : Text × TokenType). some p.0) e
cut_bearer-bearer h none raw e = absurd (cut_basic-bearer (cut_prefix h (ascii "basic ")) raw e)

cut_basic-basic : (o : Option Text) (raw : Text) → cut_basic o ≡ (raw, basic) → o ≡ some raw
unfolding cut_basic
cut_basic-basic none raw e = let q : invalid ≡ basic = ap (λ (p : Text × TokenType). p.1) e in cc
cut_basic-basic (some v) raw e = ap (λ (p : Text × TokenType). some p.0) e

cut_bearer-basic :
    (h : Text) (o : Option Text) (raw : Text)
    → cut_bearer h o ≡ (raw, basic)
    → cut_prefix h (ascii "basic ") ≡ some raw
unfolding cut_bearer
cut_bearer-basic h (some v) raw e =
    let q : bearer ≡ basic = ap (λ (p : Text × TokenType). p.1) e in cc
cut_bearer-basic h none raw e = cut_basic-basic (cut_prefix h (ascii "basic ")) raw e

HasScheme-prefix :
    (c d : ℕ) (s scheme raw : Text)
    → cut_prefix (lower_first c ++ s) (d ∷ scheme) ≡ some raw
    → d < 128
    → HasScheme d scheme (c ∷ s) raw
HasScheme-prefix c d s scheme raw e l =
    let (rest, start) =
      lower_first-ascii c d s (scheme ++ raw)
        (cut_prefix-some (lower_first c ++ s) (d ∷ scheme) raw e) l in
    (c, start, ap (λ t. c ∷ t) rest)

pub get_raw_token-bearer :
    (header raw : Text)
    → get_raw_token header ≡ (raw, bearer)
    → HasScheme 98 (ascii "earer ") header raw
unfolding get_raw_token
get_raw_token-bearer [] raw e = let q : empty ≡ bearer = ap (λ (p : Text × TokenType). p.1) e in cc
get_raw_token-bearer (c ∷ s) raw e =
    let h = lower_first c ++ s in
    HasScheme-prefix c 98 s (ascii "earer ") raw
      (cut_bearer-bearer h (cut_prefix h (ascii "bearer ")) raw e) (omega arith)

pub get_raw_token-basic :
    (header raw : Text)
    → get_raw_token header ≡ (raw, basic)
    → HasScheme 98 (ascii "asic ") header raw
unfolding get_raw_token
get_raw_token-basic [] raw e = let q : empty ≡ basic = ap (λ (p : Text × TokenType). p.1) e in cc
get_raw_token-basic (c ∷ s) raw e =
    let h = lower_first c ++ s in
    HasScheme-prefix c 98 s (ascii "asic ") raw
      (cut_bearer-basic h (cut_prefix h (ascii "bearer ")) raw e) (omega arith)

pub HasScheme-bearer :
    (header raw : Text)
    → HasScheme 98 (ascii "earer ") header raw
    → get_raw_token header ≡ (raw, bearer)
unfolding get_raw_token cut_bearer lower_first
HasScheme-bearer header raw (c, inl e, h) = rw (h, e) refl
HasScheme-bearer header raw (c, inr e, h) = let q : c ≡ 66 = omega (arith, e) in rw (h, q) refl

pub HasScheme-basic :
    (header raw : Text)
    → HasScheme 98 (ascii "asic ") header raw
    → get_raw_token header ≡ (raw, basic)
unfolding get_raw_token cut_bearer cut_basic lower_first
HasScheme-basic header raw (c, inl e, h) = rw (h, e) refl
HasScheme-basic header raw (c, inr e, h) = let q : c ≡ 66 = omega (arith, e) in rw (h, q) refl

two_parts-eq-gives :
    (p : Text × Option Text) (a b : Text) → two_parts p ≡ gives (a, b) → p ≡ (a, some b)
unfolding two_parts
two_parts-eq-gives (u, none) a b e = cc
two_parts-eq-gives (u, some w) a b e = let q = gives_injective e in λ i. ((q i).0, some (q i).1)

-- What parseBasicAuth returns stands on the two sides of the first colon of the payload.
pub parse_basic_auth_lem :
    (decode : Text → Option Text) (raw a b : Text)
    → parse_basic_auth decode raw ≡ gives (a, b)
    → decode raw ≡ some (a ++ 58 ∷ b)
unfolding parse_basic_auth decoded
parse_basic_auth_lem decode raw a b e = go (decode raw) refl e
  where
    go :
        (o : Option Text)
        → decode raw ≡ o
        → decoded o ≡ gives (a, b)
        → decode raw ≡ some (a ++ 58 ∷ b)
    go none q h = cc
    go (some payload) q h =
        q
        ∙ ap some
            (split_once-some 58 payload a b (two_parts-eq-gives (split_once 58 payload) a b h))

pub is_not_admin-false :
    (opts : Opts) (a b : Text)
    → is_not_admin opts (a, b) ≡ false
    → (a ≡ ascii "admin") × (b ≡ opts.admin_password)
is_not_admin-false opts a b h =
    ground (arith, ==_iff a (ascii "admin"), ==_iff b opts.admin_password)
