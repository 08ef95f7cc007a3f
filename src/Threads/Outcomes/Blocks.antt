-- ===== src/Threads/Outcomes/Blocks.antt =====
-- A thread that blocks (kernel-core/src/threads.rs) is marked so when another runs.
use open_kernel.Prelude.{
  ℕ, ◌≡◌, ◌≢◌, inl, inr, refl, sym, ap, ◌∙◌, true, true≢false, ◌==◌, ◌||◌, Bool-cases, update_self,
  update_other, arith,
}
use open_kernel.Threads.State.{
  Kernel, Thread, Paging, blocked, running, no_thread, idle_thread, set_state,
}
use open_kernel.Threads.Queue.{next_ready}
use open_kernel.Threads.Queue.Fifo.{next_ready-OnlyDequeued}
use open_kernel.Threads.Switch.{
  or_idle, context_switch, enter_address_space, schedule_from_current, block_current,
}
use open_kernel.Threads.Safety.Schedule.{enter-only}

module _ {M : Type 0} (paging : Paging M) where
  switched-state :
      (c next : ℕ) (t : Thread) (k : Kernel M)
      → c ≢ next
      → ((context_switch c next (
            enter_address_space paging t
              (set_state next running (record k { current_thread = next })))).threads
          c).state
        ≡ (k.threads c).state
  unfolding context_switch
  switched-state c next t k ne =
      let chosen = set_state next running (record k { current_thread = next }) in
      let entered = enter_address_space paging t chosen in
      ap (λ (q : Thread). q.state) (update_self entered.threads c _)
      ∙ ap (λ (q : Kernel M). (q.threads c).state) (enter-only paging t chosen).1
      ∙ ap (λ (q : Thread). q.state) (update_other k.threads next _ c ne)

  pub block_current-state :
      (k : Kernel M)
      → (block_current paging k).0 ≡ true
      → ((block_current paging k).1.threads k.current_thread).state ≡ blocked
  unfolding block_current schedule_from_current
  block_current-state k e =
      let c = k.current_thread in
      let k0 = set_state c blocked k in
      elim (Bool-cases (c == no_thread || c == idle_thread)) [
        | inl stays ↦ absurd (true≢false (sym e ∙ rw (stays, block_current) refl))
        | inr goes ↦ elim (Bool-cases (or_idle (next_ready k0).0 == c)) [
          | inl same ↦
              absurd
                (true≢false (sym e ∙ rw (goes, same, block_current, schedule_from_current) refl))
          | inr other ↦
              rw (goes, other, block_current, schedule_from_current)
                (switched-state c (or_idle (next_ready k0).0) _ (next_ready k0).1
                    (λ at. ground (arith, other))
                  ∙ ap (λ (q : Kernel M). (q.threads c).state) (next_ready-OnlyDequeued k0).same
                  ∙ ap (λ (q : Thread). q.state) (update_self k.threads c _))
        ]
      ]
