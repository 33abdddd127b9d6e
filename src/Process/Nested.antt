-- ===== src/Process/Nested.antt =====
-- The processes of student-distrib/sys_calls.c form a stack: what sys_execute_c and sys_halt_c
-- keep of it.
use linux_based_os.Prelude.{
  ℕ, ◌+◌, ◌-◌, ◌*◌, ◌%◌, ◌^◌, ◌≤◌, ◌<◌, ◌≡◌, ◌≢◌, inl, inr, refl, ap, sym, ◌∙◌, arith, Bool-cases,
  ◌==◌, if◌then◌else◌, Bytes, ==→eq, ==→ne,
}
use linux_based_os.Prelude.Below.{all_below, all_below_lem}
use mathlib.Core.Path.{subst}
use linux_based_os.Paging.{Paging}
use linux_based_os.Filesys.{Filesys}
use linux_based_os.Syscalls.{Kernel}
use linux_based_os.Process.{
  Pcb, Machine, put, with_kernel, eight_mb, eight_kb, pro_idx, page_base, put_base, next_frame,
  restore, launch,
}
use linux_based_os.Process.Steps.{machine_of, with_page}

-- Where the process at each level has its process control block, which frame its program has, and
-- where its kernel stack begins. Level 0 is the kernel before its first program.
abbrev pub pcb_of : ℕ → ℕ
pcb_of n = if n == 0 then 0 else eight_mb - n * eight_kb

abbrev pub frame_of : ℕ → ℕ
frame_of n = if n == 0 then 0 else n + 1

abbrev pub stack_of : ℕ → ℕ
stack_of n = eight_mb - n * eight_kb

-- A process control block that leads back to level `n`.
pub record IsChildOf (n : ℕ) (p : Pcb) : Type 0 where
  pub old_pcb_ptr : p.old_pcb_ptr ≡ pcb_of n
  pub old_phys_addr : p.old_phys_addr ≡ frame_of n
  pub old_esp0 : p.old_esp0 ≡ stack_of n

pub record IsNested (m : Machine) : Type 0 where
  pub few : m.process_number ≤ 6
  pub current : m.cur_pcb ≡ pcb_of m.process_number
  pub present : m.paging.page_directory pro_idx % 2 ≡ 1
  pub frame : page_base (m.paging.page_directory pro_idx) ≡ frame_of m.process_number
  pub stack : m.esp0 ≡ stack_of m.process_number
  pub parents : (n : ℕ) → n < m.process_number → IsChildOf n (m.pcbs (pcb_of (n + 1)))

pub put_self {ℓ} : {A : Type ℓ} (f : ℕ → A) (i : ℕ) (v : A) → put f i v i ≡ v
put_self f i v = ground arith

pub put_ne {ℓ} : {A : Type ℓ} (f : ℕ → A) (i : ℕ) (v : A) (j : ℕ) → j ≢ i → put f i v j ≡ f j
put_ne f i v j h = ground arith

pub next_frame_lem : (n : ℕ) → n < 6 → next_frame n ≡ n + 2
unfolding next_frame all_below
next_frame_lem n h = ==→eq _ _ (all_below_lem 6 (λ q. next_frame q == q + 2) n refl h)

pub pcb_of-apart : (i j : ℕ) → i ≤ 6 → j ≤ 6 → i ≢ j → pcb_of i ≢ pcb_of j
pcb_of-apart i j p q ne e = ne (ground arith)

pub put_base-present :
    (p : Paging) (base : ℕ)
    → p.page_directory pro_idx % 2 ≡ 1
    → (put_base p pro_idx base).page_directory pro_idx % 2 ≡ 1
put_base-present p base h = ground arith

pub put_base-frame :
    (p : Paging) (base : ℕ)
    → base < 2 ^ 10
    → page_base ((put_base p pro_idx base).page_directory pro_idx) ≡ base
put_base-frame p base h = ground arith

-- Where the next process has its process control block, no process at a level below has one.
pub below_next : (i n : ℕ) → n < 6 → i ≤ n → pcb_of i ≢ eight_mb - n * eight_kb - eight_kb
below_next i n few h e =
    let new : eight_mb - n * eight_kb - eight_kb ≡ pcb_of (n + 1) = ground arith in
    pcb_of-apart i (n + 1) (omega (arith, few)) (omega (arith, few)) (omega arith) (e ∙ new)

pub next_base :
    (m : Machine)
    → m.process_number < 6
    → page_base ((put_base m.paging pro_idx (next_frame m.process_number)).page_directory pro_idx)
      ≡ m.process_number + 2
next_base m few =
    let next = next_frame_lem m.process_number few in
    put_base-frame m.paging (next_frame m.process_number) (omega (arith, next)) ∙ next

-- The file array is all that a call on descriptors changes in a process control block.
with_kernel-child :
    (m : Machine) (k : Kernel) (n j : ℕ)
    → IsChildOf n (m.pcbs j)
    → IsChildOf n ((with_kernel m k).pcbs j)
with_kernel-child m k n j v = elim (Bool-cases (j == m.cur_pcb)) [
  | inl e ↦
      let at : j ≡ m.cur_pcb = ==→eq j m.cur_pcb e in
      rw e (record {
        old_pcb_ptr = ap (λ q. (m.pcbs q).old_pcb_ptr) (sym at) ∙ v.old_pcb_ptr;
        old_phys_addr = ap (λ q. (m.pcbs q).old_phys_addr) (sym at) ∙ v.old_phys_addr;
        old_esp0 = ap (λ q. (m.pcbs q).old_esp0) (sym at) ∙ v.old_esp0;
      })
  | inr e ↦ rw e v
]

pub with_kernel-IsNested : (m : Machine) (k : Kernel) → IsNested m → IsNested (with_kernel m k)
with_kernel-IsNested m k v = record {
  few = v.few;
  current = v.current;
  present = v.present;
  frame = v.frame;
  stack = v.stack;
  parents = λ n h. with_kernel-child m k n (pcb_of (n + 1)) (v.parents n h);
}

pub with_page-IsNested : (m : Machine) (page : Bytes) → IsNested m → IsNested (with_page m page)
with_page-IsNested m page v = record {
  few = v.few;
  current = v.current;
  present = v.present;
  frame = v.frame;
  stack = v.stack;
  parents = v.parents;
}

pub with_fs-IsNested : (m : Machine) (fs : Filesys) → IsNested m → IsNested (record m { fs = fs })
with_fs-IsNested m fs v = record {
  few = v.few;
  current = v.current;
  present = v.present;
  frame = v.frame;
  stack = v.stack;
  parents = v.parents;
}

launched-parents :
    (pcbs : ℕ → Pcb) (new : Pcb) (n : ℕ)
    → n < 6
    → IsChildOf n new
    → ((q : ℕ) → q < n → IsChildOf q (pcbs (pcb_of (q + 1))))
    → (q : ℕ) → q < n + 1
    → IsChildOf q (put pcbs (eight_mb - n * eight_kb - eight_kb) new (pcb_of (q + 1)))
launched-parents pcbs new n few made old q h =
    let at = eight_mb - n * eight_kb - eight_kb in
    elim (Bool-cases (q == n)) [
      | inl e ↦
          let same : q ≡ n = ==→eq q n e in
          let there : pcb_of (q + 1) ≡ at = ground arith in
          subst (λ i. IsChildOf i (put pcbs at new (pcb_of (q + 1)))) (sym same)
            (rw there (rw (put_self pcbs at new) made))
      | inr e ↦
          let other : pcb_of (q + 1) ≢ at = λ p. ==→ne q n e (ground arith) in
          rw (put_ne pcbs at new (pcb_of (q + 1)) other) (old q (ground arith))
    ]

current-child :
    (m : Machine)
    → m.process_number ≢ 0
    → IsNested m
    → IsChildOf (m.process_number - 1) (m.pcbs m.cur_pcb)
current-child m run v =
    let at : pcb_of (m.process_number - 1 + 1) ≡ m.cur_pcb =
      ap pcb_of (omega arith) ∙ sym v.current in
    subst (λ j. IsChildOf (m.process_number - 1) (m.pcbs j)) at
      (v.parents (m.process_number - 1) (omega arith))

pub launch-IsNested :
    (m : Machine) (ebp : ℕ) (loaded input header : Bytes)
    → m.process_number < 6
    → IsNested m
    → IsNested (machine_of (launch m ebp loaded input header pro_idx))
unfolding launch
launch-IsNested m ebp inode input header few v =
    let n = m.process_number in
    let next = next_frame_lem n few in
    record {
      few = omega (arith, few);
      current = ground arith;
      present = put_base-present m.paging (next_frame n) v.present;
      frame = put_base-frame m.paging (next_frame n) (omega (arith, next)) ∙ ground (arith, next);
      stack = refl;
      parents =
          launched-parents m.pcbs _ n few
            (record { old_pcb_ptr = v.current; old_phys_addr = v.frame; old_esp0 = v.stack })
            v.parents;
    }

pub restore-IsNested :
    (m : Machine) (k : Kernel) (status : ℕ → ℕ)
    → m.process_number ≢ 0
    → IsNested m
    → let r =
        restore pro_idx status
          (with_kernel (record m { process_number = m.process_number - 1 }) k) in
      IsNested r.1
unfolding restore
restore-IsNested m k status run v =
    let n = m.process_number in
    let below = record m { process_number = n - 1 } in
    let child = with_kernel-child below k (n - 1) m.cur_pcb (current-child m run v) in
    record {
      few = omega (arith, v.few);
      current = child.old_pcb_ptr;
      present = put_base-present m.paging _ v.present;
      frame =
          put_base-frame m.paging _ (rw child.old_phys_addr (ground (arith, v.few)))
          ∙ child.old_phys_addr;
      stack = child.old_esp0;
      parents = λ q h. with_kernel-child below k q (pcb_of (q + 1)) (v.parents q (omega arith));
    }
