-- ===== src/Console/Buffer/Tests.antt =====
-- A character on a new console.
use wolf_os.Base.{◌≡◌, false, arith, ℕ, refl, some}
use wolf_os.Util.Strings.{cpu_has_feature, feature_sse}
use wolf_os.Console.Screen.{Screen}
use wolf_os.Console.Buffer.{Console, Terminal, Kernel, init_console, putchar}
use wolf_os.Console.Buffer.Kept.{IsKept, Puts, putchar-Puts}

abbrev kernel : Kernel ℕ
kernel = record { kmalloc = λ n w. (65536, w); outb = λ port chr w. w }

abbrev console : Console
console = (init_console kernel 1 0).0

abbrev empty_screen : Screen
empty_screen = record { memory = λ a. 0; cursor_x = 0; cursor_y = 0; draw_mode = 7 }

abbrev terminal : Terminal ℕ
terminal = record { active_console = some console; screen = some empty_screen; world = 0 }

init_console-IsKept : IsKept console
unfolding init_console
init_console-IsKept = (tt, refl, refl)

plain_processor : cpu_has_feature 1 feature_sse ≡ false
unfolding cpu_has_feature
plain_processor = refl

putchar-Puts_example :
    Puts kernel b'w' console empty_screen terminal (putchar kernel 1 1 b'w' terminal)
putchar-Puts_example =
    putchar-Puts kernel 1 1 plain_processor (omega arith) b'w' console empty_screen terminal refl
      refl init_console-IsKept
