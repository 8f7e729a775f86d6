-- ===== src/Text/Find.antt =====
-- `startswith`, `endswith` and `in` on texts.
use Prim.Native.String.{String, [], ◌∷◌}
use Prim.Native.Char.{code}
use clipgauge.Common.{Bool, true, false, ◌&&◌, ◌||◌, List, [], ◌∷◌, ◌==◌, ◌=s=◌}

-- `s.startswith(t)`
unfoldable pub begins_with : String → String → Bool
begins_with s [] = true
begins_with [] (d ∷ t) = false
begins_with (c ∷ s) (d ∷ t) = code c == code d && begins_with s t

-- `s.endswith(t)`
unfoldable pub ends_with : String → String → Bool
ends_with [] t = t =s= []
ends_with (c ∷ s) t = c ∷ s =s= t || ends_with s t

-- `t in s`
unfoldable pub has_text : String → String → Bool
unfolding begins_with
has_text [] t = begins_with [] t
has_text (c ∷ s) t = begins_with (c ∷ s) t || has_text s t

-- `s.startswith(ts)`
unfoldable pub begins_with_any : String → List String → Bool
unfolding begins_with
begins_with_any s [] = false
begins_with_any s (t ∷ ts) = begins_with s t || begins_with_any s ts
