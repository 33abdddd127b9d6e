-- ===== src/Process/Reachable.antt =====
-- The states that the processes of student-distrib/sys_calls.c reach.
use linux_based_os.Prelude.{ℕ, ◌%◌, ◌≡◌, arith, Bytes, ℤ, some, OnSome}
use mathlib.Core.Path.{subst}
use linux_based_os.Paging.{Paging, get_big_page}
use linux_based_os.Process.{Machine, pro_idx, with_kernel, Locals, sys_execute, sys_halt, Executed}
use linux_based_os.Process.Steps.{Step, call, execute, halt, machine_of}
use linux_based_os.Process.Outcome.{
  ExecuteOutcome, refuses, launches, sys_execute-outcome, HaltOutcome, none_runs, no_page, halts,
  sys_halt-outcome,
}
use linux_based_os.Process.Nested.{
  IsNested, with_kernel-IsNested, with_page-IsNested, with_fs-IsNested, launch-IsNested,
  restore-IsNested,
}

pub present-page :
    (p : Paging) → p.page_directory pro_idx % 2 ≡ 1 → get_big_page p pro_idx ≡ some pro_idx
unfolding get_big_page
present-page p h = ground arith

-- An outcome of a call that returned.
pub executed :
    (m : Machine) (l : Locals) (ebp : ℕ) (command : Bytes) {e : Executed}
    → sys_execute m l ebp command ≡ some e
    → ExecuteOutcome m ebp e
executed m l ebp command eq =
    subst (OnSome (ExecuteOutcome m ebp)) eq (sys_execute-outcome m l ebp command)

pub halted :
    (m : Machine) (status : ℕ → ℕ) {r : ℤ × Machine}
    → sys_halt m status ≡ some r
    → HaltOutcome m status r
halted m status eq = subst (OnSome (HaltOutcome m status)) eq (sys_halt-outcome m status)

executed-IsNested :
    {m : Machine} {ebp : ℕ} {e : Executed}
    → IsNested m
    → ExecuteOutcome m ebp e
    → IsNested (machine_of e)
executed-IsNested {m} v (refuses fs) = with_fs-IsNested m fs v
executed-IsNested {m} {ebp} v (launches fs loaded input header few page) =
    launch-IsNested (record m { fs = fs }) ebp loaded input header few (with_fs-IsNested m fs v)

halted-IsNested :
    {m : Machine} {status : ℕ → ℕ} {r : ℤ × Machine}
    → IsNested m
    → HaltOutcome m status r
    → IsNested r.1
halted-IsNested v (none_runs z) = v
halted-IsNested {m} v (no_page e) =
    let page = present-page m.paging v.present in absurd (grind arith)
halted-IsNested {m} {status} v (halts k run) = restore-IsNested m k status run v

pub Step-IsNested : {m n : Machine} → IsNested m → Step m n → IsNested n
Step-IsNested {m} v (call {page} {k} c) =
    with_page-IsNested (with_kernel m k) page (with_kernel-IsNested m k v)
Step-IsNested {m} v (execute l ebp command eq) = executed-IsNested v (executed m l ebp command eq)
Step-IsNested {m} v (halt status eq) = halted-IsNested v (halted m status eq)
