-- ===== src/User/Proofs/Invariant.antt =====
-- The invariant of the states of kernel-core/src/user.rs, and the effect of a call on them.
use open_kernel.Prelude.{
  ℕ, zero, suc, ◌+◌, ◌-◌, ◌*◌, ◌/◌, ◌%◌, ◌≤◌, ◌<◌, ◌≡◌, ◌≢◌, inl, inr, refl, sym, ◌∙◌, true, false,
  Option, update, update_self, update_other, ℕ_discrete, arith,
}
use open_kernel.Memory.{page_size}
use open_kernel.User.{
  fd_path_length, current_directory_max, user_heap_base, user_heap_limit, Descriptor,
  empty_descriptor, ProcessUserState, Users, path_of, current_state_slot, state_of, set_state_of,
  set_descriptor, descriptor_of,
}
use open_kernel.User.Utf8.{is_utf8}

-- A path fits its array, and is text.
pub record IsSoundDescriptor (d : Descriptor) : Type 0 where
  pub short : d.path_length < fd_path_length
  pub text : is_utf8 (path_of d) ≡ true

pub record IsSoundHeap (p : ProcessUserState) : Type 0 where
  pub above : user_heap_base ≤ p.heap_break
  pub mapped : p.heap_break ≤ p.heap_mapped_end
  pub below : p.heap_mapped_end ≤ user_heap_limit
  pub aligned : p.heap_mapped_end % page_size ≡ 0

pub record IsSoundState (p : ProcessUserState) : Type 0 where
  pub heap : IsSoundHeap p
  pub cwd_short : p.cwd_length ≤ current_directory_max
  pub files : (index : ℕ) → IsSoundDescriptor (p.descriptors index)

pub record IsSoundUsers (u : Users) : Type 0 where
  pub each : (slot : ℕ) → IsSoundState (u.states slot)

-- A call of the process in `slot` keeps the invariant, and the states of the other slots.
pub record Keeps (slot : ℕ) (u u' : Users) : Type 0 where
  pub sound : IsSoundUsers u → IsSoundUsers u'
  pub others : (other : ℕ) → other ≢ slot → u'.states other ≡ u.states other

-- Calls change files and page tables beside the states.
pub same-Keeps : (slot : ℕ) (u u' : Users) → u'.states ≡ u.states → Keeps slot u u'
same-Keeps slot u u' e = record {
  sound = λ h. record { each = λ other. rw e (h.each other) };
  others = λ other ne. rw e refl;
}

pub Keeps-refl : (slot : ℕ) (u : Users) → Keeps slot u u
Keeps-refl slot u = same-Keeps slot u u refl

pub Keeps-trans :
    (slot : ℕ) (u u' u'' : Users) → Keeps slot u u' → Keeps slot u' u'' → Keeps slot u u''
Keeps-trans slot u u' u'' f g = record {
  sound = λ h. g.sound (f.sound h);
  others = λ other ne. g.others other ne ∙ f.others other ne;
}

pub set_state-Keeps :
    (owner : Option ℕ) (p : ProcessUserState) (u : Users)
    → (IsSoundState (state_of owner u) → IsSoundState p)
    → Keeps (current_state_slot owner) u (set_state_of owner p u)
set_state-Keeps owner p u good =
    let slot = current_state_slot owner in
    record {
      sound = λ h. record {
        each = λ other. elim (ℕ_discrete other slot) [
          | yes at ↦ rw (at, update_self u.states slot p) (good (h.each slot))
          | no ne ↦ rw (update_other u.states slot p other ne) (h.each other)
        ];
      };
      others = λ other ne. update_other u.states slot p other ne;
    }

pub set_descriptor-Keeps :
    (owner : Option ℕ) (index : ℕ) (d : Descriptor) (u : Users)
    → (IsSoundDescriptor (descriptor_of owner index u) → IsSoundDescriptor d)
    → Keeps (current_state_slot owner) u (set_descriptor owner index d u)
set_descriptor-Keeps owner index d u good =
    let p = state_of owner u in
    set_state-Keeps owner (record (p) { descriptors = update p.descriptors index d }) u
      (λ h. record {
        heap = record {
          above = h.heap.above;
          mapped = h.heap.mapped;
          below = h.heap.below;
          aligned = h.heap.aligned;
        };
        cwd_short = h.cwd_short;
        files = λ i. elim (ℕ_discrete i index) [
          | yes at ↦ rw (at, update_self p.descriptors index d) (good (h.files index))
          | no ne ↦ rw (update_other p.descriptors index d i ne) (h.files i)
        ];
      })

pub empty-IsSoundDescriptor : IsSoundDescriptor empty_descriptor
unfolding is_utf8 open_kernel.Prelude.slice_from
empty-IsSoundDescriptor = record { short = omega arith; text = refl }
