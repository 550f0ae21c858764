-- ===== src/Threads.antt =====
-- src/threads.c: the threads of the traced process, by thread_id. The primary thread is the first that
-- the system lists; tid 0 asks for it. Ports are numbers above 0 (MACH_PORT_NULL is 0); giving them back
-- is left out.
pub mod Resolve
pub mod Siblings
mod Tests
use macos_c_debugger_arm.Kernel.{Kernel}
use macos_c_debugger_arm.Prelude.{
  ℕ, zero, suc, ◌-◌, Bool, true, false, Option, none, some, List, [], ◌∷◌, ◌==◌, if◌then◌else◌,
}

pub record ThreadEntry : Type 0 where
  pub tid : ℕ
  pub pc : ℕ

-- CDBG_MAX_THREADS
abbrev pub max_threads : ℕ
max_threads = 256

module _ (k : Kernel) where
  open k use {
    World, task_for_pid, task_threads, thread_id, thread_suspend, thread_resume, get_thread_state,
  }

  unfoldable pub enumerate_threads : World → ℕ → Option (List ℕ)
  enumerate_threads w pid = elim (task_for_pid w pid) [
    | none ↦ none
    | some task ↦ task_threads w task
  ]

  -- `pc` stays 0 where the registers cannot be read.
  unfoldable pub thread_entry : World → ℕ → ℕ → ThreadEntry
  thread_entry w thread tid = record {
    tid = tid;
    pc = elim (get_thread_state w thread) [ none ↦ 0 | some native ↦ native.pc ];
  }

  -- The loop: `room` is `max - written`. A thread whose id cannot be had is skipped.
  unfoldable pub list_loop : World → ℕ → List ℕ → List ThreadEntry
  list_loop w room [] = []
  list_loop w zero (t ∷ ts) = []
  list_loop w (suc room) (t ∷ ts) =
      let skipped = list_loop w (suc room) ts in
      let written = list_loop w room ts in
      elim (thread_id w t) [ none ↦ skipped | some tid ↦ thread_entry w t tid ∷ written ]

  unfoldable pub threads_list : World → ℕ → ℕ → Option (List ThreadEntry)
  threads_list w pid max = elim (enumerate_threads w pid) [
    | none ↦ none
    | some threads ↦ some (list_loop w max threads)
  ]

  unfoldable pub has_tid : World → ℕ → ℕ → Bool
  has_tid w tid t = elim (thread_id w t) [ none ↦ false | some this_tid ↦ this_tid == tid ]

  -- The first port whose thread has the id.
  unfoldable pub find_port : World → ℕ → List ℕ → Option ℕ
  find_port w tid [] = none
  find_port w tid (t ∷ ts) = if has_tid w tid t then some t else find_port w tid ts

  unfoldable pub resolve_port : World → ℕ → ℕ → Option ℕ
  resolve_port w pid tid = elim (enumerate_threads w pid) [
    | none ↦ none
    | some [] ↦ none
    | some (t ∷ ts) ↦ if tid == 0 then some t else find_port w tid (t ∷ ts)
  ]

  -- The loop over the threads, and whether every call has succeeded. `suspend` chooses the call.
  unfoldable pub others_loop : World → Bool → ℕ → List ℕ → World × Bool
  others_loop w suspend keep_tid [] = (w, true)
  others_loop w suspend keep_tid (t ∷ ts) =
      let called = if suspend then thread_suspend w t else thread_resume w t in
      let kept = others_loop w suspend keep_tid ts in
      let (w', rest_done) = others_loop called.0 suspend keep_tid ts in
      if has_tid w keep_tid t then kept else (w', if called.1 then rest_done else false)

  -- With tid 0 the primary thread is kept, if its id can be had.
  unfoldable pub kept_tid : World → ℕ → List ℕ → ℕ
  kept_tid w keep_tid [] = keep_tid
  kept_tid w keep_tid (t ∷ ts) =
      if keep_tid == 0
      then elim (thread_id w t) [ none ↦ keep_tid | some primary ↦ primary ]
      else keep_tid

  unfoldable pub suspend_or_resume_others : World → ℕ → ℕ → Bool → World × Bool
  suspend_or_resume_others w pid keep_tid suspend = elim (enumerate_threads w pid) [
    | none ↦ (w, false)
    | some threads ↦ others_loop w suspend (kept_tid w keep_tid threads) threads
  ]

  unfoldable pub suspend_others : World → ℕ → ℕ → World × Bool
  suspend_others w pid keep_tid = suspend_or_resume_others w pid keep_tid true

  unfoldable pub resume_others : World → ℕ → ℕ → World × Bool
  resume_others w pid keep_tid = suspend_or_resume_others w pid keep_tid false
