-- ===== src/Programs/OnKernel/Ls.antt =====
-- syscalls/ece391ls.c on the kernel of student-distrib: from the directory to the screen.
use linux_based_os.Prelude.{
  ℕ, ◌+◌, ◌*◌, ◌<◌, ◌≤◌, ◌≡◌, refl, ap, ap₂, sym, ◌∙◌, arith, Bytes, byte_at, ℤ, pos, some, ◌%◌,
  ◌^◌, min, OnSome, false, ne→==,
}
use mathlib.Core.Path.{subst}
use linux_based_os.Cstring.Scan.{HasLength}
use linux_based_os.Pcb.{desc, dir_table}
use linux_based_os.Filesys.{Filesys, chars}
use linux_based_os.Filesys.Dentry.Lookup.{SameImage}
use linux_based_os.Filesys.Dir.{DirRead, dir_read, dir_failed}
use linux_based_os.Filesys.Dir.Read.{AtEntry, IsEntryRead, dir_read-IsEntryRead, dir_read-end}
use linux_based_os.Syscalls.{Kernel, bad_fd, is_closed, checked, read_ptr, sys_read}
use linux_based_os.Programs.Files.{ls_loop}
use linux_based_os.Programs.Ls.{IsLister, listing, ls_shows}
use linux_based_os.Programs.OnKernel.{
  Task, kernel_os, HasStdout, screen_of, kernel_os-IsTerminal, write_eq,
}

-- The directory of an image in which entry `i` has a name of `len i` characters, at least one.
pub record IsDirectory (fs : Filesys) (len : ℕ → ℕ) : Type 0 where
  pub entries_fit : fs.bblock.n_dir_entries < 2 ^ 32
  pub name_ends :
      (i : ℕ) → i < fs.bblock.n_dir_entries → HasLength (chars fs (64 * (i + 1))) (len i)
  pub name_fits : (i : ℕ) → i < fs.bblock.n_dir_entries → len i < 2 ^ 32
  pub visible : (i : ℕ) → i < fs.bblock.n_dir_entries → 0 < len i

-- Descriptor `fd` is open on the directory, at entry `i`.
pub record IsDirAt (fs : Filesys) (fd i : ℕ) (k : Kernel) : Type 0 where
  pub image : SameImage fs k.fs
  pub is_directory : (desc k.files fd).flags % 4 ≡ 3
  pub dir_ops : (desc k.files fd).file_op_ptr ≡ dir_table
  pub position : (desc k.files fd).file_pos ≡ i

chars_eq : (fs fs' : Filesys) (o : ℕ) → SameImage fs fs' → chars fs' o ≡ chars fs o
unfolding chars
chars_eq fs fs' o v =
    let at : Bytes → ℕ → Bytes = λ m p i. m ((p + o + i) % 2 ^ 32) in ap₂ at v.mem v.filesys_ptr

-- What a read of the directory leaves.
abbrev after : Kernel → DirRead → Kernel
after k r = record k { fs = r.fs; files = r.files }

module _ (q : Task) (fs : Filesys) (fd : ℕ) (low : 2 ≤ fd) (high : fd < 8) where
  sys_read-dir :
      (k : Kernel) (i : ℕ) (buf : Bytes) (r : DirRead)
      → IsDirAt fs fd i k
      → dir_read k.fs k.files (pos fd) (some buf) (pos 32) ≡ some r
      → (kernel_os q).ece391_read (pos fd) buf (pos 32) k ≡ some ((r.ret, r.buf), after k r)
  unfolding sys_read checked read_ptr
  sys_read-dir k i buf r at e =
      let good : bad_fd (pos fd) ≡ false = ground (arith, low, high) in
      let in_use : is_closed k (pos fd) ≡ false = ne→== _ 0 (omega (arith, at.is_directory)) in
      rw (good, in_use, at.dir_ops, e) refl

  module _ (len : ℕ → ℕ) (d : IsDirectory fs len) where
    module _ (k : Kernel) (i : ℕ) (buf : Bytes) (ready : HasStdout k) (at : IsDirAt fs fd i k)
        (below : i < fs.bblock.n_dir_entries) where
      same_count : k.fs.bblock.n_dir_entries ≡ fs.bblock.n_dir_entries
      same_count = ap (λ b. b.n_dir_entries) at.image.bblock

      same_name : chars k.fs (64 * ((desc k.files fd).file_pos + 1)) ≡ chars fs (64 * (i + 1))
      same_name = chars_eq fs k.fs _ at.image ∙ ap (λ p. chars fs (64 * (p + 1))) at.position

      at_entry : AtEntry k.fs k.files fd (len i)
      at_entry = record {
        in_range = (low, high);
        present = ready.size;
        is_directory = at.is_directory;
        before_end = omega (arith, at.position, same_count, below);
        entries_fit = omega (arith, same_count, d.entries_fit);
        name_ends = subst (λ s. HasLength s (len i)) (sym same_name) (d.name_ends i below);
        name_fits = d.name_fits i below;
      }

      module _ (r : DirRead) (v : IsEntryRead k.fs k.files fd (len i) 32 buf r) where
        read-HasStdout : HasStdout (after k r)
        read-HasStdout =
            let same = v.others 1 (omega (arith, low)) in
            record {
              size = v.size ∙ ready.size;
              in_use = ap (λ f. f.flags % 2) same ∙ ready.in_use;
              terminal = ap (λ f. f.file_op_ptr) same ∙ ready.terminal;
            }

        read-IsDirAt : IsDirAt fs fd (i + 1) (after k r)
        read-IsDirAt = record {
          image = record {
            mem = v.image.mem ∙ at.image.mem;
            filesys_ptr = v.image.filesys_ptr ∙ at.image.filesys_ptr;
            bblock = v.image.bblock ∙ at.image.bblock;
          };
          is_directory = ap (λ f. f.flags % 4) v.next ∙ at.is_directory;
          dir_ops = ap (λ f. f.file_op_ptr) v.next ∙ at.dir_ops;
          position = ap (λ f. f.file_pos) v.next ∙ ap (λ p. p + 1) at.position;
        }

        read_name : (j : ℕ) → j < min (len i) 32 → r.buf j ≡ byte_at (chars fs (64 * (i + 1))) j
        read_name j h = v.name j (omega arith) ∙ ap (λ s. byte_at s j) same_name

    kernel_os-IsLister :
        IsLister
          (kernel_os q)
          HasStdout
          screen_of
          (pos fd)
          (IsDirAt fs fd)
          (λ i. byte_at (chars fs (64 * (i + 1))))
          (λ i. min (len i) 32)
          fs.bblock.n_dir_entries
    kernel_os-IsLister = record {
      lists = λ k i buf ready at below.
          let (r, e, v) =
            dir_read-IsEntryRead k.fs k.files fd (len i) 32 buf (at_entry k i buf ready at below) in
          let whole : min (min (len i) 32) 32 ≡ min (len i) 32 = omega arith in
          (
            r.buf,
            after k r,
            sys_read-dir k i buf r at e
                ∙ ap (λ c. some ((c, r.buf), after k r)) (v.ret ∙ ap pos whole),
            read-HasStdout k i buf ready at below r v,
            read-IsDirAt k i buf ready at below r v,
            refl,
            read_name k i buf ready at below r v,
          );
      ends = λ k i buf ready at over.
          let same = ap (λ b. b.n_dir_entries) at.image.bblock in
          let e =
            dir_read-end k.fs k.files fd 32 buf low high at.is_directory
              (omega (arith, at.position, same, over)) in
          (buf, k, sys_read-dir k i buf (dir_failed (pos 0) k.fs buf k.files) at e, ready, refl);
      kept = λ k k' i n buf r ready at e small.
          subst (OnSome (λ (w : ℤ × Kernel). IsDirAt fs fd i w.1))
            (sym (write_eq q k n buf ready) ∙ e)
            (record {
              image = at.image;
              is_directory = at.is_directory;
              dir_ops = at.dir_ops;
              position = at.position;
            });
      visible = λ i below. (omega (arith, d.visible i below), omega arith);
    }

    -- The loop of ls on the modelled kernel, with descriptor `fd` open on the directory at entry
    -- `i`: it types the names of all entries from `i` on, in order, the first 32 characters of each
    -- and a newline behind it, and returns 0. The names end with a NUL and none is empty; more fuel
    -- than there are entries left is enough.
    pub ls_loop-types :
        (left i fuel : ℕ) (buf : Bytes) (k : Kernel)
        → HasStdout k
        → IsDirAt fs fd i k
        → i + left ≡ fs.bblock.n_dir_entries
        → left < fuel
        → (k' : Kernel) × (ls_loop (kernel_os q) fuel (pos fd) buf k ≡ some (pos 0, k'))
          × HasStdout k'
          × (k'.keyboard.screen
              ≡ listing left i
                  (λ e. byte_at (chars fs (64 * (e + 1))))
                  (λ e. min (len e) 32)
                  k.keyboard.screen)
    ls_loop-types left i fuel buf k ready at whole enough =
        ls_shows (kernel_os q) HasStdout screen_of (kernel_os-IsTerminal q) (pos fd) (IsDirAt fs fd)
          (λ e. byte_at (chars fs (64 * (e + 1)))) (λ e. min (len e) 32) fs.bblock.n_dir_entries
          kernel_os-IsLister left i fuel buf k ready at whole enough
