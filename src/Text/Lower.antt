-- ===== src/Text/Lower.antt =====
-- `str.lower` on ASCII, and what is compared by it.
use Prim.Native.Char.{Char, code}
use Prim.Native.String.{String, [], ◌∷◌}
use clipgauge.Common.{
  ℕ, ◌+◌, ◌≡◌, refl, Bool, true, false, ◌&&◌, ◌||◌, List, [], ◌∷◌, arith, leb, ◌==◌, if◌then◌else◌,
}

-- The code of a letter in lower case.
abbrev pub lower_code : Char → ℕ
lower_code c = let n = code c in if leb 65 n && leb n 90 then n + 32 else n

-- `a.lower() == b.lower()`
unfoldable pub same_lower : String → String → Bool
same_lower [] [] = true
same_lower [] (d ∷ t) = false
same_lower (c ∷ s) [] = false
same_lower (c ∷ s) (d ∷ t) = lower_code c == lower_code d && same_lower s t

-- `s.lower().startswith(term)`, for a term in lower case.
unfoldable pub begins_lower : String → String → Bool
begins_lower [] s = true
begins_lower (t ∷ term) [] = false
begins_lower (t ∷ term) (c ∷ s) = code t == lower_code c && begins_lower term s

-- `term in s.lower()`, for a term in lower case.
unfoldable pub has_lower : String → String → Bool
unfolding begins_lower
has_lower term [] = begins_lower term []
has_lower term (c ∷ s) = begins_lower term (c ∷ s) || has_lower term s

-- `any(term in s.lower() for term in terms)`
unfoldable pub has_any_lower : List String → String → Bool
unfolding has_lower
has_any_lower [] s = false
has_any_lower (t ∷ ts) s = has_lower t s || has_any_lower ts s

pub same_lower_refl : (s : String) → same_lower s s ≡ true
unfolding same_lower
same_lower_refl [] = refl
same_lower_refl (c ∷ s) = ground (arith, same_lower_refl s)
