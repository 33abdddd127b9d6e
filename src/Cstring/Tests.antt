-- ===== src/Cstring/Tests.antt =====
-- Runs of the string routines, and their theorems at concrete strings.
use linux_based_os.Prelude.{ℕ, ◌<◌, ◌≡◌, refl, some, arith, Bytes, pos, List, get_elem?, ◌≤◌, ◌+◌}
use linux_based_os.Cstring.{codes, or_zero, strlen, strncmp, itoa}
use linux_based_os.Cstring.Scan.{HasLength}
use linux_based_os.Cstring.Itoa.{number, itoa_lem}

-- The memory behind a pointer to a literal: its characters, then zeros.
abbrev at : List ℕ → Bytes
at cs i = or_zero (get_elem? cs i)

abbrev shell : Bytes
shell = at (codes "shell")

abbrev blank : Bytes
blank i = 0x20

shell-HasLength : HasLength shell 5
shell-HasLength = record { ends = refl; before = λ j p. ground arith }

strlen_runs : strlen shell ≡ some 5
unfolding strlen
strlen_runs = refl

strncmp_runs : strncmp (at (codes "shell")) (at (codes "shelf")) 5 ≡ pos 6
unfolding strncmp
strncmp_runs = refl

itoa_lem_example :
    (n : ℕ) × (out : Bytes) × (itoa 391 blank 16 ≡ some out)
    × HasLength out n
    × (0 < n)
    × (n ≤ 391 + 1)
    × (number 16 out n ≡ 391)
itoa_lem_example = itoa_lem 391 blank 16 (omega arith) (omega arith) (omega arith)
