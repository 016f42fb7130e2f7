-- ===== src/Tests/Texts.antt =====
-- Runs of the string operations.
use maskgate.Base.{codes, decimal, refl, replace, starts_with, ◌≡◌}

decimal_runs : decimal 2047 ≡ codes "2047"
unfolding decimal
decimal_runs = refl

replace_runs : replace (codes "aa") (codes "b") (codes "aaaxa") ≡ codes "baxa"
unfolding replace starts_with
replace_runs = refl
