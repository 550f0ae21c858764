-- ===== src/Memory/Laws.antt =====
-- What the documentation of the Mach and ptrace calls says of memory, over a view of each process'
-- memory as cells. PT_WRITE_D stores a whole `int`, of four bytes.
use macos_c_debugger_arm.Kernel.{Kernel, Protection}
use macos_c_debugger_arm.Kernel.Cells.{Cells, peek, poke}
use macos_c_debugger_arm.Prelude.{ℕ, ◌≡◌, true, false, some, List, length, u8, bytes_of}

pub record VmLaws (k : Kernel) (cells : k.World → ℕ → Cells) : Type 0 where
  pub vm_read_some :
      (w : k.World) (pid task a n : ℕ) (bs : List ℕ)
      → k.task_for_pid w pid ≡ some task
      → k.vm_read w task a n ≡ some bs
      → bs ≡ peek (cells w pid) a (length bs)
  pub vm_write_true :
      (w : k.World) (pid task a : ℕ) (bs : List ℕ) (c : ℕ)
      → k.task_for_pid w pid ≡ some task
      → (k.vm_write w task a bs).1 ≡ true
      → cells (k.vm_write w task a bs).0 pid c ≡ poke (cells w pid) a bs c
  pub vm_write_false :
      (w : k.World) (pid task a : ℕ) (bs : List ℕ) (c : ℕ)
      → (k.vm_write w task a bs).1 ≡ false
      → cells (k.vm_write w task a bs).0 pid c ≡ cells w pid c
  pub vm_protect_cells :
      (w : k.World) (pid task page size : ℕ) (p : Protection) (c : ℕ)
      → cells (k.vm_protect w task page size p).0 pid c ≡ cells w pid c
  pub vm_write_task :
      (w : k.World) (pid task a : ℕ) (bs : List ℕ)
      → k.task_for_pid (k.vm_write w task a bs).0 pid ≡ k.task_for_pid w pid
  pub vm_protect_task :
      (w : k.World) (pid task page size : ℕ) (p : Protection)
      → k.task_for_pid (k.vm_protect w task page size p).0 pid ≡ k.task_for_pid w pid
  pub pt_read_d_some :
      (w : k.World) (pid a word : ℕ) → k.pt_read_d w pid a ≡ some word → u8 word ≡ cells w pid a
  pub pt_write_d_true :
      (w : k.World) (pid a v c : ℕ)
      → (k.pt_write_d w pid a v).1 ≡ true
      → cells (k.pt_write_d w pid a v).0 pid c ≡ poke (cells w pid) a (bytes_of 4 v) c
  pub pt_write_d_false :
      (w : k.World) (pid a v c : ℕ)
      → (k.pt_write_d w pid a v).1 ≡ false
      → cells (k.pt_write_d w pid a v).0 pid c ≡ cells w pid c
