-- ===== src/Threads/Siblings.antt =====
-- `suspend_or_resume_others` of src/threads.c under the documented behaviour of Mach's suspend counts.
use macos_c_debugger_arm.Kernel.{Kernel}
use macos_c_debugger_arm.Prelude.{
  ℕ, ◌+◌, ◌-◌, ◌≡◌, refl, ap, ◌∙◌, inl, inr, Bool, true, false, some, List, [], ◌∷◌, arith, ◌==◌,
  if◌then◌else◌, Bool-cases,
}
use macos_c_debugger_arm.Threads.{
  has_tid, kept_tid, others_loop, enumerate_threads, suspend_or_resume_others, suspend_others,
  resume_others,
}

-- thread_suspend adds one to the thread's suspend count and thread_resume takes one away; neither touches
-- another thread's count, the ids or the list of threads. A call that fails changes nothing.
pub record SuspendLaws (k : Kernel) (count : k.World → ℕ → ℕ) : Type 0 where
  pub suspend_count :
      (w : k.World) (t u : ℕ)
      → (k.thread_suspend w t).1 ≡ true
      → count (k.thread_suspend w t).0 u ≡ (if u == t then count w u + 1 else count w u)
  pub resume_count :
      (w : k.World) (t u : ℕ)
      → (k.thread_resume w t).1 ≡ true
      → count (k.thread_resume w t).0 u ≡ (if u == t then count w u - 1 else count w u)
  pub suspend_id :
      (w : k.World) (t u : ℕ) → k.thread_id (k.thread_suspend w t).0 u ≡ k.thread_id w u
  pub resume_id : (w : k.World) (t u : ℕ) → k.thread_id (k.thread_resume w t).0 u ≡ k.thread_id w u
  pub suspend_threads :
      (w : k.World) (t pid : ℕ)
      → enumerate_threads k (k.thread_suspend w t).0 pid ≡ enumerate_threads k w pid
  pub resume_threads :
      (w : k.World) (t pid : ℕ)
      → enumerate_threads k (k.thread_resume w t).0 pid ≡ enumerate_threads k w pid

module _ (k : Kernel) where
  -- How often the loop calls suspend or resume on the thread `u`.
  unfoldable pub calls : k.World → ℕ → ℕ → List ℕ → ℕ
  calls w keep u [] = 0
  calls w keep u (t ∷ ts) =
      let rest = calls w keep u ts in
      if has_tid k w keep t then rest else if u == t then rest + 1 else rest

module _ (k : Kernel) (count : k.World → ℕ → ℕ) (laws : SuspendLaws k count) where
  has_tid_same :
      (w w' : k.World) (keep t : ℕ)
      → k.thread_id w' t ≡ k.thread_id w t
      → has_tid k w' keep t ≡ has_tid k w keep t
  unfolding has_tid
  has_tid_same w w' keep t e = rw (e, has_tid)

  calls_same :
      (w w' : k.World) (keep u : ℕ) (ts : List ℕ)
      → ((t : ℕ) → k.thread_id w' t ≡ k.thread_id w t)
      → calls k w' keep u ts ≡ calls k w keep u ts
  unfolding calls
  calls_same w w' keep u [] e = refl
  calls_same w w' keep u (t ∷ ts) e =
      ground (arith, has_tid_same w w' keep t (e t), calls_same w w' keep u ts e)

  suspend_loop :
      (w : k.World) (keep u : ℕ) (ts : List ℕ)
      → (others_loop k w true keep ts).1 ≡ true
      → count (others_loop k w true keep ts).0 u ≡ count w u + calls k w keep u ts
  unfolding others_loop calls
  suspend_loop w keep u [] h = omega arith
  suspend_loop w keep u (t ∷ ts) h =
      let w1 = (k.thread_suspend w t).0 in
      ground (
        arith,
        laws.suspend_count w t u,
        suspend_loop w keep u ts,
        suspend_loop w1 keep u ts,
        calls_same w w1 keep u ts (laws.suspend_id w t),
      )

  resume_loop :
      (w : k.World) (keep u : ℕ) (ts : List ℕ)
      → (others_loop k w false keep ts).1 ≡ true
      → count (others_loop k w false keep ts).0 u ≡ count w u - calls k w keep u ts
  unfolding others_loop calls
  resume_loop w keep u [] h = omega arith
  resume_loop w keep u (t ∷ ts) h =
      let w1 = (k.thread_resume w t).0 in
      ground (
        arith,
        laws.resume_count w t u,
        resume_loop w keep u ts,
        resume_loop w1 keep u ts,
        calls_same w w1 keep u ts (laws.resume_id w t),
      )

  -- The thread that is kept is never called upon.
  calls-kept :
      (w : k.World) (keep u : ℕ) (ts : List ℕ) → has_tid k w keep u ≡ true → calls k w keep u ts ≡ 0
  unfolding calls
  calls-kept w keep u [] h = refl
  calls-kept w keep u (t ∷ ts) h = elim (Bool-cases (u == t)) [
    | inl e ↦
        let same : u ≡ t = ground arith in
        ground (arith, calls-kept w keep u ts h, ap (has_tid k w keep) same)
    | inr e ↦ ground (arith, calls-kept w keep u ts h)
  ]

  others_loop-threads :
      (w : k.World) (suspend : Bool) (keep : ℕ) (ts : List ℕ) (pid : ℕ)
      → enumerate_threads k (others_loop k w suspend keep ts).0 pid ≡ enumerate_threads k w pid
  unfolding others_loop
  others_loop-threads w suspend keep [] pid = refl
  others_loop-threads w true keep (t ∷ ts) pid = ground (
    arith,
    others_loop-threads w true keep ts pid,
    others_loop-threads (k.thread_suspend w t).0 true keep ts pid,
    laws.suspend_threads w t pid,
  )
  others_loop-threads w false keep (t ∷ ts) pid = ground (
    arith,
    others_loop-threads w false keep ts pid,
    others_loop-threads (k.thread_resume w t).0 false keep ts pid,
    laws.resume_threads w t pid,
  )

  others_loop-ids :
      (w : k.World) (suspend : Bool) (keep : ℕ) (ts : List ℕ) (u : ℕ)
      → k.thread_id (others_loop k w suspend keep ts).0 u ≡ k.thread_id w u
  unfolding others_loop
  others_loop-ids w suspend keep [] u = refl
  others_loop-ids w true keep (t ∷ ts) u = ground (
    arith,
    others_loop-ids w true keep ts u,
    others_loop-ids (k.thread_suspend w t).0 true keep ts u,
    laws.suspend_id w t u,
  )
  others_loop-ids w false keep (t ∷ ts) u = ground (
    arith,
    others_loop-ids w false keep ts u,
    others_loop-ids (k.thread_resume w t).0 false keep ts u,
    laws.resume_id w t u,
  )

  kept_tid_same :
      (w w' : k.World) (keep : ℕ) (ts : List ℕ)
      → ((t : ℕ) → k.thread_id w' t ≡ k.thread_id w t)
      → kept_tid k w' keep ts ≡ kept_tid k w keep ts
  unfolding kept_tid
  kept_tid_same w w' keep [] e = refl
  kept_tid_same w w' keep (t ∷ ts) e = rw (e t, kept_tid)

  others_path :
      (w : k.World) (pid keep : ℕ) (ts : List ℕ) (suspend : Bool)
      → enumerate_threads k w pid ≡ some ts
      → suspend_or_resume_others k w pid keep suspend
        ≡ others_loop k w suspend (kept_tid k w keep ts) ts
  unfolding suspend_or_resume_others
  others_path w pid keep ts suspend e = rw (e, suspend_or_resume_others)

  -- Over a system whose suspend counts behave as documented, if every call of suspend_others succeeds,
  -- then each thread is suspended once more for each time it is listed and not kept, and a thread with the
  -- id to keep not at all.
  suspend_others-count :
      (w : k.World) (pid keep : ℕ) (ts : List ℕ) (u : ℕ)
      → enumerate_threads k w pid ≡ some ts
      → (suspend_others k w pid keep).1 ≡ true
      → (count (suspend_others k w pid keep).0 u
          ≡ count w u + calls k w (kept_tid k w keep ts) u ts)
        × (has_tid k w (kept_tid k w keep ts) u ≡ true
            → count (suspend_others k w pid keep).0 u ≡ count w u)
  unfolding suspend_others
  suspend_others-count w pid keep ts u e done =
      let path = others_path w pid keep ts true e in
      let added = suspend_loop w (kept_tid k w keep ts) u ts (rw path at done) in
      rw path (added, λ h. omega (arith, added, calls-kept w (kept_tid k w keep ts) u ts h))

  resume_others-count :
      (w : k.World) (pid keep : ℕ) (ts : List ℕ) (u : ℕ)
      → enumerate_threads k w pid ≡ some ts
      → (resume_others k w pid keep).1 ≡ true
      → count (resume_others k w pid keep).0 u ≡ count w u - calls k w (kept_tid k w keep ts) u ts
  unfolding resume_others
  resume_others-count w pid keep ts u e done =
      let path = others_path w pid keep ts false e in
      rw path (resume_loop w (kept_tid k w keep ts) u ts (rw path at done))

  suspend_others-threads :
      (w : k.World) (pid keep : ℕ) (ts : List ℕ)
      → enumerate_threads k w pid ≡ some ts
      → enumerate_threads k (suspend_others k w pid keep).0 pid ≡ some ts
  unfolding suspend_others
  suspend_others-threads w pid keep ts e =
      rw (others_path w pid keep ts true e)
        (others_loop-threads w true (kept_tid k w keep ts) ts pid ∙ e)

  suspend_others-calls :
      (w : k.World) (pid keep : ℕ) (ts : List ℕ) (u : ℕ)
      → enumerate_threads k w pid ≡ some ts
      → let w' = (suspend_others k w pid keep).0 in
        calls k w' (kept_tid k w' keep ts) u ts ≡ calls k w (kept_tid k w keep ts) u ts
  unfolding suspend_others
  suspend_others-calls w pid keep ts u e =
      let w' = (others_loop k w true (kept_tid k w keep ts) ts).0 in
      let ids = λ (t : ℕ). others_loop-ids w true (kept_tid k w keep ts) ts t in
      rw (others_path w pid keep ts true e) (
        calls_same w w' (kept_tid k w' keep ts) u ts ids
        ∙ ap (λ keep'. calls k w keep' u ts) (kept_tid_same w w' keep ts ids))

  -- Over a system whose suspend counts behave as documented, if two calls of suspend_others and then one
  -- of resume_others succeed, each thread stays suspended once more for each time it is listed and not
  -- kept.
  pub suspends_pile_up :
      (w : k.World) (pid keep : ℕ) (ts : List ℕ) (u : ℕ)
      → enumerate_threads k w pid ≡ some ts
      → (suspend_others k w pid keep).1 ≡ true
      → (suspend_others k (suspend_others k w pid keep).0 pid keep).1 ≡ true
      → (resume_others k (suspend_others k (suspend_others k w pid keep).0 pid keep).0 pid keep).1
        ≡ true
      → count
          (resume_others k (suspend_others k (suspend_others k w pid keep).0 pid keep).0 pid keep).0
          u
        ≡ count w u + calls k w (kept_tid k w keep ts) u ts
  suspends_pile_up w pid keep ts u e done1 done2 done3 =
      let w1 = (suspend_others k w pid keep).0 in
      let w2 = (suspend_others k w1 pid keep).0 in
      let e1 = suspend_others-threads w pid keep ts e in
      omega (
        arith,
        (suspend_others-count w pid keep ts u e done1).0,
        (suspend_others-count w1 pid keep ts u e1 done2).0,
        resume_others-count w2 pid keep ts u (suspend_others-threads w1 pid keep ts e1) done3,
        suspend_others-calls w pid keep ts u e,
        suspend_others-calls w1 pid keep ts u e1,
      )
