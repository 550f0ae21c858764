-- ===== src/Kernel.antt =====
-- What cdbg asks of the system: the Mach and ptrace calls of src/memory.c, src/threads.c, src/regs.c,
-- src/process.c and src/debugger.c. None of this code is in the repository, so it is a parameter; a
-- call that changes the system returns the new one. `true` stands for KERN_SUCCESS, or for a result
-- other than -1.
pub mod Cells
pub mod Toy
use macos_c_debugger_arm.Prelude.{ℕ, Bool, Option, List}

pub data Protection : Type 0 where
  read_write_copy read_execute : Protection

-- What `waitpid` returns: -1 with EINTR, -1 with another error, or the child's status.
pub data Waited : Type 0 where
  interrupted : Waited
  wait_error : Waited
  stopped : Waited
  exited : ℕ → Waited
  signaled : ℕ → Waited

-- `arm_thread_state64_t`, with x0 to x28 in `x`.
pub record ThreadState : Type 0 where
  pub x : List ℕ
  pub fp : ℕ
  pub lr : ℕ
  pub sp : ℕ
  pub pc : ℕ
  pub cpsr : ℕ

-- `arm_neon_state64_t`.
pub record NeonState : Type 0 where
  pub v : List ℕ
  pub fpsr : ℕ
  pub fpcr : ℕ

-- The breakpoint and watchpoint registers of `arm_debug_state64_t` that cdbg reads or writes.
pub record DebugState : Type 0 where
  pub wvr : List ℕ
  pub wcr : List ℕ

pub record Kernel : Type 1 where
  pub World : Type 0
  -- task_for_pid, mach_vm_read, mach_vm_write, mach_vm_protect, sysconf(_SC_PAGESIZE)
  pub task_for_pid : World → ℕ → Option ℕ
  pub vm_read : World → ℕ → ℕ → ℕ → Option (List ℕ)
  pub vm_write : World → ℕ → ℕ → List ℕ → World × Bool
  pub vm_protect : World → ℕ → ℕ → ℕ → Protection → World × Bool
  pub page_size : World → Option ℕ
  -- ptrace: PT_READ_D, PT_WRITE_D, PT_CONTINUE, PT_STEP, PT_DETACH
  pub pt_read_d : World → ℕ → ℕ → Option ℕ
  pub pt_write_d : World → ℕ → ℕ → ℕ → World × Bool
  pub pt_continue : World → ℕ → World × Bool
  pub pt_step : World → ℕ → World × Bool
  pub pt_detach : World → ℕ → World
  -- kill(SIGKILL), where ESRCH counts as success as in `stop_debuggee`
  pub kill : World → ℕ → World × Bool
  -- fork, whose child traces itself and runs the program: the child's pid
  pub spawn : World → World × Option ℕ
  pub waitpid : World → ℕ → World × Waited
  -- task_threads, thread_info, thread_suspend, thread_resume
  pub task_threads : World → ℕ → Option (List ℕ)
  pub thread_id : World → ℕ → Option ℕ
  pub thread_suspend : World → ℕ → World × Bool
  pub thread_resume : World → ℕ → World × Bool
  -- thread_get_state and thread_set_state, by flavor
  pub get_thread_state : World → ℕ → Option ThreadState
  pub set_thread_state : World → ℕ → ThreadState → World × Bool
  pub get_neon_state : World → ℕ → Option NeonState
  pub set_neon_state : World → ℕ → NeonState → World × Bool
  pub get_debug_state : World → ℕ → Option DebugState
  pub set_debug_state : World → ℕ → DebugState → World × Bool
  -- the FAR and the ESR of the exception state
  pub get_exception_state : World → ℕ → Option (ℕ × ℕ)
