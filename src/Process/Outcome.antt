-- ===== src/Process/Outcome.antt =====
-- How sys_execute_c and sys_halt_c of student-distrib/sys_calls.c can end.
use linux_based_os.Prelude.{
  OnSome, OnSome-map_some, OnSome-bind, OnSome-if, ℕ, ◌-◌, ◌<◌, ◌≡◌, ◌≢◌, inl, inr, ap, ◌∙◌, arith,
  leb, ◌==◌, Bool-cases, Option-cases, Bytes, ℤ, failure, none, some,
}
use linux_based_os.Filesys.{Filesys}
use linux_based_os.Filesys.Dentry.{Looked}
use linux_based_os.Paging.{Paging, get_big_page}
use linux_based_os.Syscalls.{Kernel}
use linux_based_os.Process.{
  Machine, Locals, Executed, refused, with_kernel, restore, sys_halt, sys_execute, execute_found,
  launch, launch_page, pro_idx,
}

-- sys_execute_c refuses, and only buffers of the file system have changed, or it launches.
pub data ExecuteOutcome (m : Machine) (ebp : ℕ) : Executed → Type 0 where
  refuses : (fs : Filesys) → ExecuteOutcome m ebp (refused (record m { fs = fs }))
  launches :
      (fs : Filesys) (loaded input header : Bytes)
      → m.process_number < 6
      → get_big_page m.paging pro_idx ≡ some pro_idx
      → ExecuteOutcome m ebp (launch (record m { fs = fs }) ebp loaded input header pro_idx)

big_page_index : (p : Paging) (i : ℕ) → get_big_page p pro_idx ≡ some i → i ≡ pro_idx
unfolding get_big_page
big_page_index p i e = ground arith

launch_page-outcome :
    (m : Machine) (fs : Filesys) (ebp inode : ℕ) (input header : Bytes)
    → m.process_number < 6
    → OnSome
        (ExecuteOutcome m ebp)
        (launch_page (record m { fs = fs }) ebp inode input header (get_big_page m.paging pro_idx))
launch_page-outcome m fs ebp inode input header few =
    elim (Option-cases (get_big_page m.paging pro_idx)) [
      | inl e ↦ rw e (refuses fs)
      | inr (i, e) ↦
          let at = big_page_index m.paging i e in
          rw (e, at)
            (OnSome-map_some (ExecuteOutcome m ebp) _ _
              (λ loaded. launches fs loaded input header few (e ∙ ap some at)))
    ]

execute_found-outcome :
    (m : Machine) (l : Locals) (ebp : ℕ) (command : Bytes) (looked : Looked)
    → m.process_number < 6
    → OnSome (ExecuteOutcome m ebp) (execute_found m l ebp command looked)
unfolding execute_found
execute_found-outcome m l ebp command looked few =
    let no : ExecuteOutcome m ebp (refused (record m { fs = looked.fs })) = refuses looked.fs in
    let page = λ (inode : ℕ) (input header : Bytes).
      launch_page-outcome m looked.fs ebp inode input header few in
    search (OnSome-if, OnSome-bind, no, page) depth 9

pub sys_execute-outcome :
    (m : Machine) (l : Locals) (ebp : ℕ) (command : Bytes)
    → OnSome (ExecuteOutcome m ebp) (sys_execute m l ebp command)
unfolding sys_execute
sys_execute-outcome m l ebp command = elim (Bool-cases (leb 6 m.process_number)) [
  | inl full ↦ rw full (refuses m.fs)
  | inr more ↦ rw more (
      OnSome-bind (ExecuteOutcome m ebp) _ _
        (λ looked. execute_found-outcome m l ebp command looked (ground arith)))
]

-- sys_halt_c fails without a process or without a page for programs, or it restores the parent.
pub data HaltOutcome (m : Machine) (status : ℕ → ℕ) : ℤ × Machine → Type 0 where
  none_runs : m.process_number ≡ 0 → HaltOutcome m status (failure, m)
  no_page :
      get_big_page m.paging pro_idx ≡ none
      → HaltOutcome m status (failure, record m { process_number = m.process_number - 1 })
  halts :
      (k : Kernel)
      → m.process_number ≢ 0
      → HaltOutcome m status (
          restore pro_idx status
            (with_kernel (record m { process_number = m.process_number - 1 }) k))

pub sys_halt-outcome :
    (m : Machine) (status : ℕ → ℕ) → OnSome (HaltOutcome m status) (sys_halt m status)
unfolding sys_halt
sys_halt-outcome m status = elim (Bool-cases (m.process_number == 0)) [
  | inl z ↦ rw z (none_runs (ground arith))
  | inr nz ↦
      let some_run : m.process_number ≢ 0 = ground arith in
      let stops : (k : Kernel)
          → HaltOutcome m status (
              restore pro_idx status
                (with_kernel (record m { process_number = m.process_number - 1 }) k)) =
        λ k. halts k some_run in
      elim (Option-cases (get_big_page m.paging pro_idx)) [
        | inl e ↦ rw (nz, e) (no_page e)
        | inr (i, e) ↦ rw (nz, e, big_page_index m.paging i e) (search (OnSome-map_some, stops))
      ]
]
