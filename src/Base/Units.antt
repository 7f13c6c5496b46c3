-- ===== src/Base/Units.antt =====
-- Literals as texts.
use Prim.Native.Char.{char}
use Prim.Native.String.{String, [] as empty_string, ◌∷◌ as ◌∷ˢ◌}
use mathlib.Core.Path.{◌≡◌, refl}
use mathlib.Core.List.{[], ◌∷◌}
use content_pool_next.Base.Text.{Text}

-- The units of a literal whose characters are one unit each.
unfoldable pub units : String → Text
units empty_string = []
units (char n scalar ∷ˢ s) = n ∷ units s

units_test : units "zip" ≡ 122 ∷ 105 ∷ 112 ∷ []
unfolding units
units_test = refl
