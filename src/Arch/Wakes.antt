-- ===== src/Arch/Wakes.antt =====
-- Which threads the timer's handler of kernel-core/src/arch.rs wakes.
use open_kernel.Prelude.{
  ℕ, ◌<◌, ◌≡◌, inl, inr, refl, ap, ◌∙◌, Bool, true, false, not, ◌&&◌, ◌||◌, if◌then◌else◌, ◌==◌,
  ==_refl, ==_of_ne, leb, Bool-cases, update_self, update_other, ℕ_discrete, arith,
}
use open_kernel.Threads.State.{
  Kernel, ThreadState, ready, running, blocked, exited, max_threads, is_blocked, set_state,
}
use open_kernel.Threads.Switch.{wake}
use open_kernel.Threads.Safety.Invariant.{threads-enqueue}

-- Exactly the blocked threads that are named become ready; the other states stay.
pub record WokenBy {M : Type 0} (named : ℕ → Bool) (k k' : Kernel M) : Type 0 where
  pub states :
      (t : ℕ)
      → t < max_threads
      → (k'.threads t).state
        ≡ (if named t && is_blocked (k.threads t).state then ready else (k.threads t).state)

pub still_blocked :
    (n : Bool) (s : ThreadState)
    → is_blocked (if n && is_blocked s then ready else s) ≡ (not n && is_blocked s)
still_blocked false s = refl
still_blocked true ready = refl
still_blocked true running = refl
still_blocked true blocked = refl
still_blocked true exited = refl

module _ {M : Type 0} where
  pub WokenBy-none :
      (named : ℕ → Bool) (k : Kernel M) → ((t : ℕ) → named t ≡ false) → WokenBy named k k
  WokenBy-none named k h = record { states = λ t lt. rw (h t) refl }

  -- Two rounds of waking are one.
  pub WokenBy-trans :
      (a b c : ℕ → Bool) (k k' k'' : Kernel M)
      → WokenBy a k k'
      → WokenBy b k' k''
      → ((t : ℕ) → c t ≡ (a t || b t))
      → WokenBy c k k''
  WokenBy-trans a b c k k' k'' f g e = record {
    states = λ t lt.
        g.states t lt
        ∙ rw (f.states t lt, still_blocked (a t) (k.threads t).state, e t) (ground arith);
  }

  pub wake-WokenBy : (thread : ℕ) (k : Kernel M) → WokenBy (λ t. t == thread) k (wake thread k).1
  unfolding wake
  wake-WokenBy thread k = elim (Bool-cases (leb max_threads thread)) [
    | inl out ↦
        rw out (record { states = λ t lt. rw (==_of_ne t thread (λ same. ground arith)) refl })
    | inr inside ↦ elim (Bool-cases (is_blocked (k.threads thread).state)) [
      | inr awake ↦
          rw (inside, awake)
            (record {
              states = λ t lt. elim (ℕ_discrete t thread) [
                | yes same ↦ rw (same, ==_refl thread, awake) refl
                | no ne ↦ rw (==_of_ne t thread ne) refl
              ];
            })
      | inl asleep ↦
          rw (inside, asleep)
            (record {
              states = λ t lt. elim (ℕ_discrete t thread) [
                | yes same ↦
                    ap (λ f. (f t).state) (threads-enqueue thread (set_state thread ready k))
                    ∙ rw
                        (
                          same,
                          update_self k.threads thread
                              (record (k.threads thread) { state = ready }),
                          ==_refl thread,
                          asleep,
                        )
                        refl
                | no ne ↦
                    ap (λ f. (f t).state) (threads-enqueue thread (set_state thread ready k))
                    ∙ rw
                        (
                          update_other k.threads thread
                              (record (k.threads thread) { state = ready }) t ne,
                          ==_of_ne t thread ne,
                        )
                        refl
              ];
            })
    ]
  ]
