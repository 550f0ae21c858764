-- ===== src/Kernel/Toy.antt =====
-- A small concrete system, at which the assumptions on the kernel are seen to hold. It is one process
-- with two threads: its memory, its stop reports to come, and its registers, which
-- the threads share. `port` says whether a task
-- port can be had; without one, ptrace does the writing.
use macos_c_debugger_arm.Kernel.{Kernel, Waited, wait_error, ThreadState, NeonState, DebugState}
use macos_c_debugger_arm.Kernel.Cells.{Cells, peek, poke, length-peek}
use macos_c_debugger_arm.Memory.Exact.{ExactMemory, RefusesPtraceWrites, laws-ExactMemory}
use macos_c_debugger_arm.Memory.Laws.{VmLaws}
use macos_c_debugger_arm.Threads.{enumerate_threads}
use macos_c_debugger_arm.Threads.Siblings.{SuspendLaws}
use macos_c_debugger_arm.Prelude.{
  ℕ, ◌+◌, ◌-◌, ◌==◌, ◌≡◌, refl, ap, sym, ◌∙◌, Bool, true, false, none, some, List, [], ◌∷◌,
  if◌then◌else◌, ltb, ◌^◌, arith, length, bytes_of,
}

pub record Process : Type 0 where
  pub memory : Cells
  pub reports : List Waited
  pub regs : ThreadState
  pub neon : NeonState
  pub debug : DebugState
  pub suspended : ℕ → ℕ
  pub running : Bool

-- Nothing is mapped from here on.
abbrev pub unmapped : ℕ
unmapped = 2 ^ 48

abbrev pub next_report : Process → Process × Waited
next_report p = go p.reports
  where
    go : List Waited → Process × Waited
    go [] = (p, wait_error)
    go (r ∷ rs) = (record p { reports = rs; running = false }, r)

abbrev pub toy : Bool → Kernel
toy port = record {
  World = Process;
  task_for_pid = λ w pid. if port then some pid else none;
  vm_read = λ w task a n. if ltb a unmapped then some (peek w.memory a n) else none;
  vm_write = λ w task a bs. (record w { memory = poke w.memory a bs }, true);
  vm_protect = λ w task page size p. (w, true);
  page_size = λ w. some 16384;
  pt_read_d = λ w pid a. none;
  pt_write_d = λ w pid a v.
      if port then (w, false) else (record w { memory = poke w.memory a (bytes_of 4 v) }, true);
  pt_continue = λ w pid. (record w { running = true }, true);
  pt_step = λ w pid. (record w { running = true }, true);
  pt_detach = λ w pid. w;
  kill = λ w pid. (w, true);
  spawn = λ w. (w, some 9);
  waitpid = λ w pid. next_report w;
  task_threads = λ w task. some (1 ∷ 2 ∷ []);
  thread_id = λ w thread. some (thread + 100);
  thread_suspend = λ w thread. (
    record w { suspended = λ u. if u == thread then w.suspended u + 1 else w.suspended u },
    true,
  );
  thread_resume = λ w thread. (
    record w { suspended = λ u. if u == thread then w.suspended u - 1 else w.suspended u },
    true,
  );
  get_thread_state = λ w thread. some w.regs;
  set_thread_state = λ w thread s. (record w { regs = s }, true);
  get_neon_state = λ w thread. some w.neon;
  set_neon_state = λ w thread s. (record w { neon = s }, true);
  get_debug_state = λ w thread. some w.debug;
  set_debug_state = λ w thread s. (record w { debug = s }, true);
  get_exception_state = λ w thread. some (0, 0);
}

abbrev pub toy_cells : Process → ℕ → Cells
toy_cells w pid = w.memory

-- The toy system behaves as documented, with and without a task port.
pub toy-VmLaws : (port : Bool) → VmLaws (toy port) toy_cells
toy-VmLaws port = record {
  vm_read_some = λ w pid task a n bs got same. shown w a n bs same;
  vm_write_true = λ w pid task a bs c got done. refl;
  vm_write_false = λ w pid task a bs c failed. cc;
  vm_protect_cells = λ w pid task page size p c. refl;
  vm_write_task = λ w pid task a bs. refl;
  vm_protect_task = λ w pid task page size p. refl;
  pt_read_d_some = λ w pid a word h. cc;
  pt_write_d_true = poked port;
  pt_write_d_false = kept port;
}
  where
    shown :
        (w : Process) (a n : ℕ) (bs : List ℕ)
        → (if ltb a unmapped then some (peek w.memory a n) else none) ≡ some bs
        → bs ≡ peek w.memory a (length bs)
    shown w a n bs h =
        let e : peek w.memory a n ≡ bs = ground arith in
        sym e ∙ ap (peek w.memory a) (sym (length-peek w.memory a n) ∙ ap length e)

    poked :
        (b : Bool) (w : Process) (pid a v c : ℕ)
        → ((toy b).pt_write_d w pid a v).1 ≡ true
        → toy_cells ((toy b).pt_write_d w pid a v).0 pid c ≡ poke w.memory a (bytes_of 4 v) c
    poked true w pid a v c h = cc
    poked false w pid a v c h = refl

    kept :
        (b : Bool) (w : Process) (pid a v c : ℕ)
        → ((toy b).pt_write_d w pid a v).1 ≡ false
        → toy_cells ((toy b).pt_write_d w pid a v).0 pid c ≡ w.memory c
    kept true w pid a v c h = refl
    kept false w pid a v c h = cc

pub toy-RefusesPtraceWrites : RefusesPtraceWrites (toy true)
toy-RefusesPtraceWrites w pid a v = refl

-- So the memory layer keeps its contract over it.
pub toy-ExactMemory : ExactMemory (toy true) toy_cells
toy-ExactMemory = laws-ExactMemory (toy true) toy_cells (toy-VmLaws true) toy-RefusesPtraceWrites

abbrev pub toy_regs : ThreadState
toy_regs = record { x = []; fp = 0; lr = 0; sp = 0; pc = 0x4000; cpsr = 0 }

-- A process stopped at 0x4000, whose memory holds 7 everywhere.
abbrev pub toy_process : List Waited → Process
toy_process reports = record {
  memory = λ a. 7;
  reports = reports;
  regs = toy_regs;
  neon = record { v = []; fpsr = 0; fpcr = 0 };
  debug = record { wvr = 0 ∷ 0 ∷ 0 ∷ 0 ∷ []; wcr = 0 ∷ 0 ∷ 0 ∷ 0 ∷ [] };
  suspended = λ t. 0;
  running = false;
}

-- How often a thread of the toy process is suspended.
abbrev pub toy_count : Process → ℕ → ℕ
toy_count w u = w.suspended u

pub toy-SuspendLaws : SuspendLaws (toy true) toy_count
unfolding enumerate_threads
toy-SuspendLaws = record {
  suspend_count = λ w t u done. refl;
  resume_count = λ w t u done. refl;
  suspend_id = λ w t u. refl;
  resume_id = λ w t u. refl;
  suspend_threads = λ w t pid. refl;
  resume_threads = λ w t pid. refl;
}
