-- ===== src/Prelude/Text.antt =====
-- Go strings, which are sequences of bytes, and the functions of package strings that the code calls.
use Prim.Native.Nat.{ℕ}
use Prim.Native.Char.{code}
use Prim.Native.String as string
use Prim.Native.String.{String}
use mathlib.Core.Path.{◌≡◌, refl, ap, sym}
use mathlib.Core.Logic.{◌↔◌, inl, inr}
use mathlib.Core.Bool.{Bool, true, false, ◌&&◌}
use mathlib.Core.Option.{Option, none, some}
use mathlib.Core.List.{List, [], ◌∷◌, ◌++◌}
use native.Mathlib.Omega.{arith}
use at.Prelude.Tests.{Bool-cases, eqb, if◌then◌else◌}
use at.Prelude.Eq.{Eq}

abbrev pub Text : Type 0
Text = List ℕ

-- The bytes of an ASCII literal.
abbrev pub ascii : String → Text
ascii string.[] = []
ascii (string.◌∷◌ c s) = code c ∷ ascii s

abbrev pub same_text : Text → Text → Bool
same_text [] [] = true
same_text [] (d ∷ t) = false
same_text (c ∷ s) [] = false
same_text (c ∷ s) (d ∷ t) = eqb c d && same_text s t

pub same_text_iff : (s t : Text) → (same_text s t ≡ true) ↔ (s ≡ t)
same_text_iff [] [] = (λ h. refl, λ h. refl)
same_text_iff [] (d ∷ t) = (λ h. cc, λ h. cc)
same_text_iff (c ∷ s) [] = (λ h. cc, λ h. cc)
same_text_iff (c ∷ s) (d ∷ t) = ground (arith, same_text_iff s t)

instance abbrev pub text_eq : Eq Text
text_eq = record { test = same_text; decides = same_text_iff }

-- strings.CutPrefix(s, prefix): what is left of `s`, if it was found.
abbrev pub cut_prefix : Text → Text → Option Text
cut_prefix s [] = some s
cut_prefix [] (d ∷ p) = none
cut_prefix (c ∷ s) (d ∷ p) = if eqb c d then cut_prefix s p else none

pub cut_prefix-some : (s p t : Text) → cut_prefix s p ≡ some t → s ≡ p ++ t
cut_prefix-some s [] t h = ground arith
cut_prefix-some [] (d ∷ p) t h = cc
cut_prefix-some (c ∷ s) (d ∷ p) t h = ground (arith, cut_prefix-some s p t)

pub cut_prefix-append : (p t : Text) → cut_prefix (p ++ t) p ≡ some t
cut_prefix-append [] t = refl
cut_prefix-append (d ∷ p) t = ground (arith, cut_prefix-append p t)

-- strings.SplitN(s, sep, 2) for a separator of one byte: what is before the first one, and after it.
abbrev found_later : ℕ → Text × Option Text → Text × Option Text
found_later c r = (c ∷ r.0, r.1)

abbrev pub split_once : ℕ → Text → Text × Option Text
split_once sep [] = ([], none)
split_once sep (c ∷ s) =
    let rest = split_once sep s in if eqb c sep then ([], some s) else found_later c rest

pub split_once-some : (sep : ℕ) (s a b : Text) → split_once sep s ≡ (a, some b) → s ≡ a ++ sep ∷ b
split_once-some sep [] a b h = cc
split_once-some sep (c ∷ s) a b h = elim (Bool-cases (eqb c sep)) [
  | inl e ↦
      let q : c ≡ sep = ground arith in
      let same : ([], some s) ≡ (a, some b) = rw e at h in
      let start : [] ≡ a = ap (λ r. r.0) same in
      let rest : some s ≡ some b = ap (λ r. r.1) same in rw (sym start, q) (ap (λ t. sep ∷ t) (cc))
  | inr e ↦
      let later : found_later c (split_once sep s) ≡ (a, some b) = rw e at h in
      let start : c ∷ (split_once sep s).0 ≡ a = ap (λ r. r.0) later in
      let rest : (split_once sep s).1 ≡ some b = ap (λ r. r.1) later in
      rw (sym start) (
        ap (λ t. c ∷ t)
          (split_once-some sep s (split_once sep s).0 b (λ i. ((split_once sep s).0, rest i))))
]
