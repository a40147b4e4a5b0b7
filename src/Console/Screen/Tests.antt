-- ===== src/Console/Screen/Tests.antt =====
-- The screen: the theorems at an input that meets their conditions.
use wolf_os.Base.{some, false, [], ◌∷◌, ◌≡◌, ◌%◌, refl, arith}
use wolf_os.Util.Strings.{cpu_has_feature, feature_sse}
use wolf_os.Console.Screen.{Screen, render}
use wolf_os.Console.Screen.Cursor.{InBounds, render-InBounds}

abbrev bottom : Screen
bottom = record { memory = λ a. a % 251; cursor_x = 80; cursor_y = 24; draw_mode = 7 }

plain_processor : cpu_has_feature 1 feature_sse ≡ false
unfolding cpu_has_feature
plain_processor = refl

render-InBounds_example :
    (t : Screen) × (render 1 1 (b'o' ∷ b'k' ∷ 10 ∷ []) bottom ≡ some t)
    × InBounds t
    × (t.memory 0xb7fff ≡ 0xb7fff % 251)
render-InBounds_example =
    render-InBounds 1 plain_processor 1 (b'o' ∷ b'k' ∷ 10 ∷ []) bottom 0xb7fff (omega arith)
      (omega arith) refl
