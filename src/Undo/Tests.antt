-- ===== src/Undo/Tests.antt =====
-- Closing a catcher of three functions of which one is nil and one fails.
use egop.Prelude.{ℕ, ◌==◌, if◌then◌else◌, List, [], ◌∷◌, ◌++◌, Option, none, some, ◌≡◌, refl}
use mathlib.Core.List.{reverse}
use egop.Undo.{fresh, add, close, run_all, collect}
use egop.Undo.Laws.{add_all, given, worlds, errors, close-add_all}

abbrev log : ℕ → List ℕ → List ℕ × Option ℕ
log n done = (done ++ n ∷ [], if n == 2 then some 99 else none)

abbrev three : List (Option ℕ)
three = some 1 ∷ none ∷ some 2 ∷ some 3 ∷ []

three_closed : (close log (add_all fresh three) []).1 ≡ 3 ∷ 2 ∷ 1 ∷ []
unfolding add_all add close run_all collect
three_closed = refl

close-add_all_example :
    ((close log (add_all fresh three) []).1 ≡ worlds log (reverse (given three)) [])
    × ((close log (add_all fresh three) []).2 ≡ errors log (reverse (given three)) [])
    × (close log (add_all (close log (add_all fresh three) []).0 (some 4 ∷ [])) (7 ∷ [])
        ≡ ((close log (add_all fresh three) []).0, 7 ∷ [], []))
close-add_all_example = close-add_all log three (some 4 ∷ []) [] (7 ∷ [])
