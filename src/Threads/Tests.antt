-- ===== src/Threads/Tests.antt =====
-- The properties of src/threads.c at concrete inputs: a process with the threads 1 and 2, whose ids are 101
-- and 102.
use macos_c_debugger_arm.Kernel.Toy.{Process, toy, toy_process, toy_count, toy-SuspendLaws}
use macos_c_debugger_arm.Prelude.{◌+◌, ◌≡◌, refl, true, some, List, [], ◌∷◌}
use macos_c_debugger_arm.Threads.{
  ThreadEntry, enumerate_threads, resolve_port, find_port, has_tid, kept_tid, suspend_others,
  resume_others, suspend_or_resume_others, others_loop,
}
use macos_c_debugger_arm.Threads.Siblings.{calls, suspends_pile_up}

abbrev process : Process
process = toy_process []

abbrev suspended_once : Process
suspended_once = (suspend_others (toy true) process 9 101).0

abbrev suspended_twice : Process
suspended_twice = (suspend_others (toy true) suspended_once 9 101).0

resolve_runs : resolve_port (toy true) process 9 102 ≡ some 2
unfolding resolve_port enumerate_threads find_port has_tid
resolve_runs = refl

primary_runs : resolve_port (toy true) process 9 0 ≡ some 1
unfolding resolve_port enumerate_threads
primary_runs = refl

abbrev first_entry : List ThreadEntry
first_entry = record { tid = 101; pc = 0x4000 } ∷ []

suspends_pile_up_example :
    toy_count (resume_others (toy true) suspended_twice 9 101).0 2
    ≡ 0 + calls (toy true) process (kept_tid (toy true) process 101 (1 ∷ 2 ∷ [])) 2 (1 ∷ 2 ∷ [])
suspends_pile_up_example =
    suspends_pile_up (toy true) toy_count toy-SuspendLaws process 9 101 (1 ∷ 2 ∷ []) 2
      (unfold enumerate_threads in refl)
      (unfold suspend_others suspend_or_resume_others enumerate_threads others_loop kept_tid
          has_tid in
        refl)
      (unfold suspend_others suspend_or_resume_others enumerate_threads others_loop kept_tid
          has_tid in
        refl)
      (unfold suspend_others resume_others suspend_or_resume_others enumerate_threads others_loop
          kept_tid has_tid in
        refl)
