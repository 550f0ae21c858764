-- ===== src/Threads/Resolve.antt =====
-- `cdbg_threads_resolve_port` and `cdbg_threads_list` of src/threads.c.
use macos_c_debugger_arm.Kernel.{Kernel}
use macos_c_debugger_arm.Prelude.{
  ℕ, zero, suc, ◌≤◌, ◌≡◌, ◌≢◌, inl, inr, true, false, none, some, List, [], ◌∷◌, arith, ◌==◌,
  length, All, Bool-cases, Option-cases,
}
use macos_c_debugger_arm.Threads.{
  ThreadEntry, enumerate_threads, find_port, has_tid, list_loop, resolve_port, threads_list,
}

-- `t` is listed, and it is the first listed thread with the id.
pub data FirstWith (k : Kernel) (w : k.World) (tid t : ℕ) : List ℕ → Type 0 where
  here : {ts : List ℕ} → k.thread_id w t ≡ some tid → FirstWith k w tid t (t ∷ ts)
  later :
      {u : ℕ} {ts : List ℕ}
      → k.thread_id w u ≢ some tid
      → FirstWith k w tid t ts
      → FirstWith k w tid t (u ∷ ts)

module _ (k : Kernel) (w : k.World) where
  has_tid-id : (tid t : ℕ) → has_tid k w tid t ≡ true → k.thread_id w t ≡ some tid
  unfolding has_tid
  has_tid-id tid t h = ground arith

  not_has_tid : (tid t : ℕ) → has_tid k w tid t ≡ false → k.thread_id w t ≢ some tid
  unfolding has_tid
  not_has_tid tid t h e = ground arith

  find_port-FirstWith :
      (tid t : ℕ) (ts : List ℕ) → find_port k w tid ts ≡ some t → FirstWith k w tid t ts
  unfolding find_port
  find_port-FirstWith tid t [] h = cc
  find_port-FirstWith tid t (u ∷ ts) h = elim (Bool-cases (has_tid k w tid u)) [
    | inl e ↦ let same : u ≡ t = ground arith in rw same (here (rw same at (has_tid-id tid u e)))
    | inr e ↦ later (not_has_tid tid u e) (find_port-FirstWith tid t ts (rw e at h))
  ]

  find_port-none :
      (tid : ℕ) (ts : List ℕ)
      → find_port k w tid ts ≡ none
      → All (λ t. k.thread_id w t ≢ some tid) ts
  unfolding find_port
  find_port-none tid [] h = tt
  find_port-none tid (u ∷ ts) h = elim (Bool-cases (has_tid k w tid u)) [
    | inl e ↦ ground arith
    | inr e ↦ (not_has_tid tid u e, find_port-none tid ts (rw e at h))
  ]

  -- If the threads can be listed and the id is not 0, a port that is found is the first listed thread with
  -- the id, and if none is found, no listed thread has it.
  resolve_port_lem :
      (pid tid : ℕ) (ts : List ℕ)
      → enumerate_threads k w pid ≡ some ts
      → tid ≢ 0
      → ((t : ℕ) → resolve_port k w pid tid ≡ some t → FirstWith k w tid t ts)
        × (resolve_port k w pid tid ≡ none → All (λ t. k.thread_id w t ≢ some tid) ts)
  unfolding resolve_port
  resolve_port_lem pid tid [] e ne = (λ t h. cc (rw (e, resolve_port) at h), λ h. tt)
  resolve_port_lem pid tid (u ∷ ts) e ne =
      let chosen : (tid == 0) ≡ false = ground arith in
      (
        λ t h. find_port-FirstWith tid t (u ∷ ts) (rw (e, resolve_port, chosen) at h),
        λ h. find_port-none tid (u ∷ ts) (rw (e, resolve_port, chosen) at h),
      )

  length-list_loop : (room : ℕ) (ts : List ℕ) → length (list_loop k w room ts) ≤ room
  unfolding list_loop
  length-list_loop room [] = omega arith
  length-list_loop zero (t ∷ ts) = omega arith
  length-list_loop (suc room) (t ∷ ts) =
      ground (arith, length-list_loop (suc room) ts, length-list_loop room ts)

  -- A list of threads that is returned has at most as many entries as the array of the caller.
  length-threads_list :
      (pid max : ℕ) (entries : List ThreadEntry)
      → threads_list k w pid max ≡ some entries
      → length entries ≤ max
  unfolding threads_list
  length-threads_list pid max entries h = elim (Option-cases (enumerate_threads k w pid)) [
    | inl e ↦ cc (rw (e, threads_list) at h)
    | inr (ts, e) ↦ ground (arith, length-list_loop max ts)
  ]
