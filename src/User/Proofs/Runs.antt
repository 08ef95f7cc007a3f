-- ===== src/User/Proofs/Runs.antt =====
-- Runs of the calls of kernel-core/src/user.rs.
use open_kernel.Prelude.{
  ℕ, ◌-◌, ◌≤◌, ◌≡◌, ◌≢◌, inl, inr, refl, sym, ◌∙◌, true, true≢false, ◌||◌, ◌==◌, ltb, leb, Option,
  some, Option-cases, Bool-cases, List, [], ◌∷◌, length, arith, min,
}
use open_kernel.Storage.Names.{names_equal, names_equal_iff}
use open_kernel.Vfs.{is_directory}
use open_kernel.Vfs.Paths.{root_path, tmp_path}
use open_kernel.Console.{tty_count}
use open_kernel.Threads.State.{max_threads}
use open_kernel.User.{
  ConsoleTarget, current_directory_max, user_heap_base, user_heap_limit, ProcessUserState, Users,
  current_state_slot, state_of, set_state_of, resolve_path, chdir, bind_tty, bind_pty, to_tty,
  to_pty,
}
use open_kernel.User.Files.{open_fd, read_fd, write_fd, close_fd, seek_fd}
use open_kernel.User.Heap.{brk, grow_heap, heap_rounds, heap_end}
use open_kernel.User.Proofs.Invariant.{
  IsSoundHeap, IsSoundUsers, Keeps, same-Keeps, Keeps-refl, Keeps-trans, set_state-Keeps,
}
use open_kernel.User.Proofs.Opens.{open_fd-Keeps}
use open_kernel.User.Proofs.Calls.{read_fd-Keeps, write_fd-Keeps, close_fd-Keeps, seek_fd-Keeps}

directory_short : (path : List ℕ) → is_directory path ≡ true → length path ≤ current_directory_max
unfolding is_directory
directory_short path h = elim (Bool-cases (names_equal path root_path)) [
  | inl root ↦ let e = (names_equal_iff path root_path).0 root in rw e (omega arith)
  | inr other ↦ elim (Bool-cases (names_equal path tmp_path)) [
    | inl tmp ↦ let e = (names_equal_iff path tmp_path).0 tmp in rw e (omega arith)
    | inr neither ↦ absurd (true≢false (sym h ∙ rw (other, neither) refl))
  ]
]

chdir-Keeps :
    (owner : Option ℕ) (path : List ℕ) (u : Users)
    → Keeps (current_state_slot owner) u (chdir owner path u).1
unfolding chdir
chdir-Keeps owner path u =
    let same = Keeps-refl (current_state_slot owner) u in
    elim (Option-cases (resolve_path owner path u)) [
      | inl e ↦ rw (e, chdir) same
      | inr (resolved, e) ↦ elim (Bool-cases (is_directory resolved)) [
        | inr other ↦ rw (e, other, chdir) same
        | inl there ↦
            rw (e, there, chdir)
              (set_state-Keeps owner _ u (λ h. record {
                heap = record {
                  above = h.heap.above;
                  mapped = h.heap.mapped;
                  below = h.heap.below;
                  aligned = h.heap.aligned;
                };
                cwd_short = directory_short resolved there;
                files = h.files;
              }))
      ]
    ]

console-Keeps :
    (owner : Option ℕ) (target : ConsoleTarget) (u : Users)
    → Keeps
        (current_state_slot owner)
        u
        (set_state_of owner (record (state_of owner u) { console = target }) u)
console-Keeps owner target u = set_state-Keeps owner _ u (λ h. record {
  heap = record {
    above = h.heap.above;
    mapped = h.heap.mapped;
    below = h.heap.below;
    aligned = h.heap.aligned;
  };
  cwd_short = h.cwd_short;
  files = h.files;
})

heap-Keeps :
    (owner : Option ℕ) (p : ProcessUserState) (u : Users)
    → (IsSoundHeap (state_of owner u) → IsSoundHeap p)
    → p.cwd_length ≡ (state_of owner u).cwd_length
    → p.descriptors ≡ (state_of owner u).descriptors
    → Keeps (current_state_slot owner) u (set_state_of owner p u)
heap-Keeps owner p u good cwd files =
    set_state-Keeps owner p u
      (λ h. record { heap = good h.heap; cwd_short = rw cwd h.cwd_short; files = rw files h.files })

brk-Keeps :
    (owner : Option ℕ) (requested : ℕ) (u : Users)
    → Keeps (current_state_slot owner) u (brk owner requested u).1
unfolding brk
brk-Keeps owner requested u =
    let slot = current_state_slot owner in
    let p = state_of owner u in
    let out =
      grow_heap (heap_rounds p.heap_mapped_end (heap_end requested)) p.heap_mapped_end
        (heap_end requested) u.tables in
    let k = same-Keeps slot u (record (u) { tables = out.1 }) refl in
    elim (Bool-cases (requested == 0)) [
      | inl asks ↦ rw (asks, brk) (Keeps-refl slot u)
      | inr moves ↦
          elim (Bool-cases (ltb requested user_heap_base || ltb user_heap_limit requested)) [
            | inl out_of_range ↦ rw (moves, out_of_range, brk) (Keeps-refl slot u)
            | inr inside ↦ elim (Bool-cases (leb requested p.heap_break)) [
              | inl down ↦
                  rw (moves, inside, down, brk)
                    (heap-Keeps owner _ u
                      (λ h. record {
                        above = ground (arith, inside);
                        mapped = ground (arith, down, h.mapped);
                        below = h.below;
                        aligned = h.aligned;
                      })
                      refl refl)
              | inr up ↦ elim (Bool-cases out.0) [
                | inr failed ↦ rw (moves, inside, up, failed, brk) k
                | inl grown ↦
                    rw (moves, inside, up, grown, brk)
                      (Keeps-trans slot u (record (u) { tables = out.1 }) _ k
                        (heap-Keeps owner _ (record (u) { tables = out.1 })
                          (λ h. record {
                            above = ground (arith, inside);
                            mapped = omega arith;
                            below = ground (arith, inside);
                            aligned = omega arith;
                          })
                          refl refl))
              ]
            ]
          ]
    ]

pub data UserCall : Type 0 where
  call_open : List ℕ → ℕ → UserCall
  call_read : (fd room : ℕ) → (ℕ → ℕ) → UserCall
  call_write : ℕ → List ℕ → UserCall
  call_close : ℕ → UserCall
  call_seek : (fd offset whence : ℕ) → UserCall
  call_chdir : List ℕ → UserCall
  call_brk : ℕ → UserCall
  call_bind_tty call_bind_pty : ℕ → UserCall

unfoldable pub user_call : Option ℕ → UserCall → Users → Users
user_call owner (call_open path flags) u = (open_fd owner path flags u).1
user_call owner (call_read fd room output) u = (read_fd owner fd room output u).2
user_call owner (call_write fd input) u = (write_fd owner fd input u).1
user_call owner (call_close fd) u = (close_fd owner fd u).1
user_call owner (call_seek fd offset whence) u = (seek_fd owner fd offset whence u).1
user_call owner (call_chdir path) u = (chdir owner path u).1
user_call owner (call_brk requested) u = (brk owner requested u).1
user_call owner (call_bind_tty tty) u = bind_tty owner tty u
user_call owner (call_bind_pty pty) u = bind_pty owner pty u

-- Calls of several processes, in the order in which the kernel serves them.
unfoldable pub user_calls : List (Option ℕ × UserCall) → Users → Users
user_calls [] u = u
user_calls ((owner, call) ∷ rest) u = user_calls rest (user_call owner call u)

user_call-Keeps :
    (owner : Option ℕ) (call : UserCall) (u : Users)
    → Keeps (current_state_slot owner) u (user_call owner call u)
unfolding user_call bind_tty bind_pty
user_call-Keeps owner (call_open path flags) u = open_fd-Keeps owner path flags u
user_call-Keeps owner (call_read fd room output) u = read_fd-Keeps owner fd room output u
user_call-Keeps owner (call_write fd input) u = write_fd-Keeps owner fd input u
user_call-Keeps owner (call_close fd) u = close_fd-Keeps owner fd u
user_call-Keeps owner (call_seek fd offset whence) u = seek_fd-Keeps owner fd offset whence u
user_call-Keeps owner (call_chdir path) u = chdir-Keeps owner path u
user_call-Keeps owner (call_brk requested) u = brk-Keeps owner requested u
user_call-Keeps owner (call_bind_tty tty) u =
    console-Keeps owner (to_tty (min tty (tty_count - 1))) u
user_call-Keeps owner (call_bind_pty pty) u = console-Keeps owner (to_pty pty) u

-- No calls of any processes, in any order and whether they succeed or fail, break the invariant: the
-- path of every descriptor is text and fits its array, so does the current directory, and the heap
-- lies in its range, its break at most at the page-aligned end of what is mapped.
pub user_calls-IsSoundUsers :
    (calls : List (Option ℕ × UserCall)) (u : Users)
    → IsSoundUsers u
    → IsSoundUsers (user_calls calls u)
unfolding user_calls
user_calls-IsSoundUsers [] u h = h
user_calls-IsSoundUsers ((owner, call) ∷ rest) u h =
    user_calls-IsSoundUsers rest (user_call owner call u) ((user_call-Keeps owner call u).sound h)

-- The calls are those of processes of the table, which has the numbers 1 to 8, other than the given
-- one.
abbrev pub OthersThan : ℕ → List (Option ℕ × UserCall) → Type 0
OthersThan process [] = Unit
OthersThan process ((owner, call) ∷ rest) =
    ((other : ℕ) × (owner ≡ some other) × (other ≢ process) × (1 ≤ other) × (other ≤ max_threads))
    × OthersThan process rest

-- Two processes of the table have two states.
slots_differ :
    (process other : ℕ)
    → 1 ≤ process
    → process ≤ max_threads
    → 1 ≤ other
    → other ≤ max_threads
    → other ≢ process
    → current_state_slot (some process) ≢ current_state_slot (some other)
unfolding current_state_slot
slots_differ process other lo hi lo' hi' ne e = ne (omega (arith, e, lo, hi, lo', hi'))

-- Processes are isolated: no calls of other processes, in any order, change the descriptors, the
-- current directory, the heap or the console of a process. The processes are those of the table, with
-- numbers from 1 to 8.
pub user_calls-isolated :
    (calls : List (Option ℕ × UserCall)) (process : ℕ) (u : Users)
    → 1 ≤ process
    → process ≤ max_threads
    → OthersThan process calls
    → state_of (some process) (user_calls calls u) ≡ state_of (some process) u
unfolding user_calls
user_calls-isolated [] process u lo hi h = refl
user_calls-isolated ((owner, call) ∷ rest) process u lo hi h =
    let (other, is, ne, lo', hi') = h.0 in
    let apart : current_state_slot (some process) ≢ current_state_slot owner =
      rw is (slots_differ process other lo hi lo' hi' ne) in
    user_calls-isolated rest process (user_call owner call u) lo hi h.1
    ∙ (user_call-Keeps owner call u).others (current_state_slot (some process)) apart
